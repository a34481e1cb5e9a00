-- ===== src/Blockade/Gridlock/Search.antt =====
-- compute_gridlock_constraint: the loop over its queue, and the blockers that are not expanded yet.
use rmf_traffic.Base.{
  ℕ, zero, suc, ◌+◌, ◌*◌, ◌≤◌, ◌<◌, ◌≡◌, ◌≢◌, refl, sym, subst, inl, inr, true, false, ◌&&◌, none,
  List, [], ◌∷◌, ◌++◌, length, length-append, All, arith, Option-cases, Bool-cases, ==_iff, ◌==◌,
  if◌then◌else◌,
}
use rmf_traffic.Base.Assoc.{Assoc, lookup_or, insert, lookup_or-insert}
use rmf_traffic.Blockade.Range.{State}
use rmf_traffic.Blockade.Constraint.{Constraint, dependencies}
use rmf_traffic.Blockade.Conflicts.{Blockers}
use rmf_traffic.Blockade.Gridlock.{
  Blocker, Cache, GridlockNode, is_visited, blockers_of, start_queue, add_dependent, distinct,
  dependents_of, expand, search, number_of_dependencies, enough, gridlocks,
}
use rmf_traffic.Blockade.Gridlock.Expand.{
  has, IsLinked, IsOneOf, Expanded, expand_total, measure_step,
}

-- How many of the blockers are not expanded yet
unfoldable unexpanded : Cache → List Blocker → ℕ
unfolding is_visited
unexpanded cache [] = 0
unexpanded cache (b ∷ bs) =
    if is_visited b.participant b.index cache
    then unexpanded cache bs
    else suc (unexpanded cache bs)

unexpanded_le :
    (p i : ℕ) (cache : Cache) (bs : List Blocker)
    → unexpanded ((p, i) ∷ cache) bs ≤ unexpanded cache bs
unfolding unexpanded is_visited
unexpanded_le p i cache [] = omega arith
unexpanded_le p i cache (b ∷ bs) = ground (arith, unexpanded_le p i cache bs)

unexpanded_lt :
    (p i : ℕ) (cache : Cache) (bs : List Blocker)
    → is_visited p i cache ≡ false
    → has p i bs ≡ true
    → unexpanded ((p, i) ∷ cache) bs < unexpanded cache bs
unfolding unexpanded is_visited has
unexpanded_lt p i cache [] v h = absurd (cc)
unexpanded_lt p i cache (b ∷ bs) v h = elim (Bool-cases ((b.participant == p) && (b.index == i))) [
  | inl e ↦
      let same_p : p ≡ b.participant = ground (arith, e) in
      let same_i : i ≡ b.index = ground (arith, e) in
      let new : is_visited b.participant b.index cache ≡ false =
        subst (λ (k : ℕ). is_visited k b.index cache ≡ false) same_p
          (subst (λ (k : ℕ). is_visited p k cache ≡ false) same_i v) in
      ground (arith, unexpanded_le p i cache bs, new, e)
  | inr e ↦ ground (arith, unexpanded_lt p i cache bs, unexpanded_le p i cache bs)
]

unexpanded_start : (bs : List Blocker) → unexpanded [] bs ≡ length bs
unfolding unexpanded is_visited
unexpanded_start [] = refl
unexpanded_start (b ∷ bs) = ground (arith, unexpanded_start bs)

module _ (all : List Blocker) (dependents : Assoc (List Blocker)) (bound : ℕ)
    (few : (p : ℕ) → length (lookup_or p [] dependents) ≤ bound)
    (known : (p : ℕ) → All (IsOneOf all) (lookup_or p [] dependents)) where
  search_ends :
      (f : ℕ) (expanded : Cache) (queue : List GridlockNode) (found : List Constraint)
      → All (IsLinked all) queue
      → unexpanded expanded all * suc bound + length queue < f
      → search f dependents expanded queue found ≢ none
  unfolding search
  search_ends zero expanded queue found q h = absurd (omega arith)
  search_ends (suc f) expanded [] found q h = ground arith
  search_ends (suc f) expanded (top ∷ queue) found (l, q) h =
      elim (Bool-cases (is_visited top.blocker.participant top.blocker.index expanded)) [
        | inl v ↦
            let rest : search f dependents expanded queue found ≢ none =
              search_ends f expanded queue found q (omega arith) in
            ground (arith, v, rest)
        | inr v ↦
            let p : ℕ = top.blocker.participant in
            let i : ℕ = top.blocker.index in
            let s : State = (p, record { begin = i; end = i }) ∷ [] in
            let lt = unexpanded_lt p i expanded all v l.0 in
            let e : Expanded all (length queue + length (lookup_or p [] dependents))
                (expand top s (lookup_or p [] dependents) queue found) =
              expand_total all top s (lookup_or p [] dependents) queue found l (known p) q in
            elim (Option-cases (expand top s (lookup_or p [] dependents) queue found)) [
              | inl z ↦
                  absurd
                    (subst (Expanded all (length queue + length (lookup_or p [] dependents))) z e)
              | inr ((queue', found'), z) ↦
                  let good =
                    subst (Expanded all (length queue + length (lookup_or p [] dependents))) z e in
                  let rest : search f dependents ((p, i) ∷ expanded) queue' found' ≢ none =
                    search_ends f ((p, i) ∷ expanded) queue' found' good.0 (
                      measure_step f bound (unexpanded expanded all)
                        (unexpanded ((p, i) ∷ expanded) all) (length queue) (length queue') lt
                        (omega (arith, good.1, few p)) h) in
                  ground (arith, v, z, rest)
            ]
      ]

module _ (all : List Blocker) where
  Known : Assoc (List Blocker) → Type 0
  Known m = (p : ℕ) → All (IsOneOf all) (lookup_or p [] m)

  snoc_All :
      (bs : List Blocker) (b : Blocker)
      → All (IsOneOf all) bs
      → IsOneOf all b
      → All (IsOneOf all) (bs ++ b ∷ [])
  snoc_All [] b a h = (h, tt)
  snoc_All (c ∷ bs) b (x, a) h = (x, snoc_All bs b a h)

  add_dependent-Known :
      (b : Blocker) (ds : List ℕ) (m : Assoc (List Blocker))
      → IsOneOf all b
      → Known m
      → Known (add_dependent b ds m)
  unfolding Known add_dependent
  add_dependent-Known b [] m h k = k
  add_dependent-Known b (d ∷ ds) m h k =
      add_dependent-Known b ds (insert d (lookup_or d [] m ++ b ∷ []) m) h λ p.
        elim (Bool-cases (d == p)) [
          | inl e ↦
              let new : lookup_or p [] (insert d (lookup_or d [] m ++ b ∷ []) m)
                  ≡ lookup_or d [] m ++ b ∷ [] =
                ground (arith, lookup_or-insert p d [] (lookup_or d [] m ++ b ∷ []) m, e) in
              subst (All (IsOneOf all)) (sym new) (snoc_All (lookup_or d [] m) b (k d) h)
          | inr e ↦
              let old : lookup_or p [] (insert d (lookup_or d [] m ++ b ∷ []) m)
                  ≡ lookup_or p [] m =
                ground (arith, lookup_or-insert p d [] (lookup_or d [] m ++ b ∷ []) m, e) in
              subst (All (IsOneOf all)) (sym old) (k p)
        ]

  dependents-Known :
      (bs : List Blocker) (m : Assoc (List Blocker))
      → All (IsOneOf all) bs
      → Known m
      → Known (dependents_of bs m)
  unfolding dependents_of
  dependents-Known [] m h k = k
  dependents-Known (b ∷ bs) m (h, hs) k =
      dependents-Known bs (add_dependent b (distinct (dependencies b.constraint)) m) hs
        (add_dependent-Known b (distinct (dependencies b.constraint)) m h k)

  start-IsLinked :
      (bs : List Blocker) (queue : List GridlockNode)
      → All (IsOneOf all) bs
      → All (IsLinked all) queue
      → All (IsLinked all) (start_queue bs queue)
  unfolding start_queue is_visited has
  start-IsLinked [] queue h q = q
  start-IsLinked (b ∷ bs) queue (h, hs) q =
      start-IsLinked bs
        (record { blocker = b; ancestors = []; visited = (b.participant, b.index) ∷ [] } ∷ queue) hs
        ((h, λ p i v. ground (arith, v)), q)

length-add_dependent :
    (b : Blocker) (ds : List ℕ) (m : Assoc (List Blocker)) (p : ℕ)
    → length (lookup_or p [] (add_dependent b ds m)) ≤ length (lookup_or p [] m) + length ds
unfolding add_dependent
length-add_dependent b [] m p = omega arith
length-add_dependent b (d ∷ ds) m p = ground (
  arith,
  length-add_dependent b ds (insert d (lookup_or d [] m ++ b ∷ []) m) p,
  lookup_or-insert p d [] (lookup_or d [] m ++ b ∷ []) m,
  length-append (lookup_or d [] m) (b ∷ []),
  ==_iff d p,
)

dependents_length :
    (bs : List Blocker) (m : Assoc (List Blocker)) (p : ℕ)
    → length (lookup_or p [] (dependents_of bs m))
      ≤ length (lookup_or p [] m) + number_of_dependencies bs
unfolding dependents_of number_of_dependencies
dependents_length [] m p = omega arith
dependents_length (b ∷ bs) m p = omega (
  arith,
  dependents_length bs (add_dependent b (distinct (dependencies b.constraint)) m) p,
  length-add_dependent b (distinct (dependencies b.constraint)) m p,
)

start_length :
    (bs : List Blocker) (queue : List GridlockNode)
    → length (start_queue bs queue) ≡ length bs + length queue
unfolding start_queue
start_length [] queue = omega arith
start_length (b ∷ bs) queue = omega (
  arith,
  start_length bs
      (record { blocker = b; ancestors = []; visited = (b.participant, b.index) ∷ [] } ∷ queue),
)

has_longer :
    (c : Blocker) (all bs : List Blocker) → All (IsOneOf all) bs → All (IsOneOf (c ∷ all)) bs
unfolding has
has_longer c all [] a = tt
has_longer c all (b ∷ bs) (h, a) = (ground (arith, h), has_longer c all bs a)

each_has : (bs : List Blocker) → All (IsOneOf bs) bs
unfolding has
each_has [] = tt
each_has (b ∷ bs) = (ground arith, has_longer b bs bs (each_has bs))

-- The search for gridlocks ends for any blockers, and never follows the parents past the end of
-- the chain.
pub gridlocks_total : (blockers : Blockers) → gridlocks blockers ≢ none
unfolding gridlocks Known
gridlocks_total blockers =
    search_ends bs (dependents_of bs []) (number_of_dependencies bs)
      (λ p. omega (arith, dependents_length bs [] p))
      (dependents-Known bs bs [] (each_has bs) λ p. tt) (enough bs) [] (start_queue bs []) []
      (start-IsLinked bs bs [] (each_has bs) tt)
      (subst (λ n. n * suc (number_of_dependencies bs) + length (start_queue bs []) < enough bs)
        (sym (unexpanded_start bs)) (omega (arith, start_length bs [])))
  where
    bs : List Blocker
    bs = blockers_of blockers
