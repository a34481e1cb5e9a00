-- ===== src/Schedule/Dependencies/Waiting.antt =====
-- schedule/DependencyTracker.cpp: which subscriptions wait for which checkpoint, and who is told.
use rmf_traffic.Base.{
  ℕ, ◌≤◌, ◌<◌, ◌≡◌, refl, ap, subst, inl, inr, Bool, true, false, none, some, List, [], ◌∷◌, ◌++◌,
  length, get_or, ltb, leb, ◌==◌, if◌then◌else◌, arith, All, Contains, Bool-cases,
}
use rmf_traffic.Base.Assoc.{lookup, insert, lookup_or}
use rmf_traffic.Schedule.Dependencies.{
  CheckpointDependencies, RouteDependencies, PlanDependencies, TrafficDependencies, Notice, reach,
  add_checkpoint, tell, reach_checkpoints, reach_routes,
}

-- The subscriptions that wait for a checkpoint
abbrev pub waiting : ℕ → ℕ → ℕ → ℕ → TrafficDependencies → List ℕ
waiting p pl r c deps = lookup_or c [] (lookup_or r [] (lookup_or pl [] (lookup_or p [] deps)))

-- A std::map has its keys in order.
abbrev pub IsOrdered : CheckpointDependencies → Type 0
IsOrdered [] = Unit
IsOrdered ((c, ws) ∷ cs) = All (λ e. c < e.0) cs × IsOrdered cs

abbrev pub RoutesOrdered : RouteDependencies → Type 0
RoutesOrdered routes = All (λ e. IsOrdered e.1) routes

abbrev pub PlansOrdered : PlanDependencies → Type 0
PlansOrdered plans = All (λ e. RoutesOrdered e.1) plans

abbrev pub AllOrdered : TrafficDependencies → Type 0
AllOrdered deps = All (λ e. PlansOrdered e.1) deps

module _ {V : Type 0} (P : V → Type 0) where
  pub All-lookup_or :
      (k : ℕ) (d : V) (m : List (ℕ × V)) → P d → All (λ e. P e.1) m → P (lookup_or k d m)
  All-lookup_or k d [] h a = h
  All-lookup_or k d ((j, v) ∷ m) h a = elim (Bool-cases (j == k)) [
    | inl e ↦ rw e a.0
    | inr e ↦ rw e (All-lookup_or k d m h a.1)
  ]

  pub All-insert :
      (k : ℕ) (v : V) (m : List (ℕ × V))
      → P v
      → All (λ e. P e.1) m
      → All (λ e. P e.1) (insert k v m)
  All-insert k v [] h a = (h, tt)
  All-insert k v ((j, w) ∷ m) h a = elim (Bool-cases (j == k)) [
    | inl e ↦ rw e (h, a.1)
    | inr e ↦ rw e (a.0, All-insert k v m h a.1)
  ]

pub lookup-lookup_or :
    {V : Type 0} (k : ℕ) (d v : V) (m : List (ℕ × V)) → lookup k m ≡ some v → lookup_or k d m ≡ v
lookup-lookup_or k d v [] h = absurd (cc)
lookup-lookup_or k d v ((j, w) ∷ m) h = ground (arith, lookup-lookup_or k d v m)

pub lookup-none :
    {V : Type 0} (k : ℕ) (d : V) (m : List (ℕ × V)) → lookup k m ≡ none → lookup_or k d m ≡ d
lookup-none k d [] h = refl
lookup-none k d ((j, w) ∷ m) h = ground (arith, lookup-none k d m)

pub absent :
    (c n : ℕ) (cs : CheckpointDependencies) → All (λ e. n < e.0) cs → c ≤ n → lookup_or c [] cs ≡ []
absent c n [] a h = refl
absent c n ((k, ws) ∷ cs) a h = ground (arith, absent c n cs a.1 h)

-- Adding keeps the order, and puts the subscription behind those that wait for its checkpoint.
add_checkpoint-above :
    (n c w : ℕ) (cs : CheckpointDependencies)
    → n < c
    → All (λ e. n < e.0) cs
    → All (λ e. n < e.0) (add_checkpoint c w cs)
unfolding add_checkpoint
add_checkpoint-above n c w [] h a = (h, tt)
add_checkpoint-above n c w ((k, ws) ∷ cs) h a = elim (Bool-cases (ltb k c)) [
  | inl e ↦ rw e (a.0, add_checkpoint-above n c w cs h a.1)
  | inr e ↦ elim (Bool-cases (k == c)) [ inl s ↦ rw (e, s) a | inr s ↦ rw (e, s) (h, a) ]
]

above_trans :
    (n k : ℕ) (cs : CheckpointDependencies) → n < k → All (λ e. k < e.0) cs → All (λ e. n < e.0) cs
above_trans n k [] h a = tt
above_trans n k ((j, ws) ∷ cs) h a = (omega (arith, a.0), above_trans n k cs h a.1)

pub add_checkpoint-IsOrdered :
    (c w : ℕ) (cs : CheckpointDependencies) → IsOrdered cs → IsOrdered (add_checkpoint c w cs)
unfolding add_checkpoint
add_checkpoint-IsOrdered c w [] o = (tt, tt)
add_checkpoint-IsOrdered c w ((k, ws) ∷ cs) o = elim (Bool-cases (ltb k c)) [
  | inl e ↦
      let h : k < c = ground (arith, e) in
      rw e (add_checkpoint-above k c w cs h o.0, add_checkpoint-IsOrdered c w cs o.1)
  | inr e ↦ elim (Bool-cases (k == c)) [
    | inl s ↦ rw (e, s) o
    | inr s ↦ let h : c < k = ground (arith, e, s) in rw (e, s) ((h, above_trans c k cs h o.0), o)
  ]
]

pub lookup_or-add_checkpoint :
    (j c w : ℕ) (cs : CheckpointDependencies)
    → IsOrdered cs
    → lookup_or j [] (add_checkpoint c w cs)
      ≡ (if c == j then lookup_or j [] cs ++ (w ∷ []) else lookup_or j [] cs)
unfolding add_checkpoint
lookup_or-add_checkpoint j c w [] o = ground arith
lookup_or-add_checkpoint j c w ((k, ws) ∷ cs) o =
    ground (arith, lookup_or-add_checkpoint j c w cs o.1, absent j k cs o.0)

module _ (live : ℕ → Bool) where
  -- The loop over a route's checkpoints
  pub lookup_or-reach_checkpoints :
      (limit c : ℕ) (cs : CheckpointDependencies)
      → IsOrdered cs
      → lookup_or c [] (reach_checkpoints live limit cs).0
        ≡ (if leb c limit then [] else lookup_or c [] cs)
  unfolding reach_checkpoints
  lookup_or-reach_checkpoints limit c [] o = ground arith
  lookup_or-reach_checkpoints limit c ((k, ws) ∷ cs) o =
      ground (arith, lookup_or-reach_checkpoints limit c cs o.1, absent c k cs o.0)

  pub Contains-append_left :
      {A : Type 0} (a : A) (xs ys : List A) → Contains a xs → Contains a (xs ++ ys)
  Contains-append_left a [] ys h = absurd h
  Contains-append_left a (x ∷ xs) ys (inl h) = inl h
  Contains-append_left a (x ∷ xs) ys (inr h) = inr (Contains-append_left a xs ys h)

  pub Contains-append_right :
      {A : Type 0} (a : A) (xs ys : List A) → Contains a ys → Contains a (xs ++ ys)
  Contains-append_right a [] ys h = h
  Contains-append_right a (x ∷ xs) ys h = inr (Contains-append_right a xs ys h)

  pub tell-Contains :
      (notice : ℕ → Notice) (w : ℕ) (ws : List ℕ)
      → live w ≡ true
      → Contains w ws
      → Contains (notice w) (tell live notice ws)
  unfolding tell
  tell-Contains notice w [] l h = absurd h
  tell-Contains notice w (x ∷ ws) l (inl h) =
      let e : live x ≡ true = rw (← h) l in rw e (inl (ap notice h))
  tell-Contains notice w (x ∷ ws) l (inr h) = elim (Bool-cases (live x)) [
    | inl e ↦ rw e (inr (tell-Contains notice w ws l h))
    | inr e ↦ rw e (tell-Contains notice w ws l h)
  ]

  pub reach_checkpoints-tells :
      (limit c w : ℕ) (cs : CheckpointDependencies)
      → IsOrdered cs
      → live w ≡ true
      → c ≤ limit
      → Contains w (lookup_or c [] cs)
      → Contains (reach w) (reach_checkpoints live limit cs).1
  unfolding reach_checkpoints
  reach_checkpoints-tells limit c w [] o l k h = absurd h
  reach_checkpoints-tells limit c w ((j, ws) ∷ cs) o l k h = elim (Bool-cases (j == c)) [
    | inl e ↦
        let b : leb j limit ≡ true = ground (arith, e) in
        let here : Contains w ws = subst (λ (x : List ℕ). Contains w x) (rw e refl) h in
        rw b (Contains-append_left _ _ _ (tell-Contains reach w ws l here))
    | inr e ↦
        let there : Contains w (lookup_or c [] cs) =
          subst (λ (x : List ℕ). Contains w x) (rw e refl) h in
        elim (Bool-cases (leb j limit)) [
          | inl b ↦ rw b (
              Contains-append_right _ (tell live reach ws) _
                (reach_checkpoints-tells limit c w cs o.1 l k there))
          | inr b ↦
              absurd
                (subst (λ (x : List ℕ). Contains w x) (absent c j cs o.0 (ground (arith, b))) there)
        ]
  ]

module _ (live : ℕ → Bool) where
  pub lookup_or-reach_routes :
      (cps : List ℕ) (r : ℕ) (routes : RouteDependencies)
      → lookup_or r [] (reach_routes live cps routes).0 ≡ (
          if leb (length cps) r
          then lookup_or r [] routes
          else (reach_checkpoints live (get_or cps r 0) (lookup_or r [] routes)).0)
  unfolding reach_routes
  lookup_or-reach_routes cps r [] = elim (Bool-cases (leb (length cps) r)) [
    | inl b ↦ rw b refl
    | inr b ↦ rw b (nothing (get_or cps r 0))
  ]
    where
      nothing : (limit : ℕ) → [] ≡ (reach_checkpoints live limit []).0
      nothing limit = unfold reach_checkpoints in refl
  lookup_or-reach_routes cps r ((j, cs) ∷ routes) =
      let rest = lookup_or-reach_routes cps r routes in
      elim (Bool-cases (j == r)) [
        | inl e ↦
            let same : j ≡ r = ground (arith, e) in
            elim (Bool-cases (leb (length cps) j)) [
              | inl b ↦ let b' : leb (length cps) r ≡ true = rw (← same) b in rw (b, b', e) refl
              | inr b ↦
                  let b' : leb (length cps) r ≡ false = rw (← same) b in
                  rw (b, b', e) (rw same refl)
            ]
        | inr e ↦ elim (Bool-cases (leb (length cps) j)) [
          | inl b ↦ rw (b, e) rest
          | inr b ↦ rw (b, e) rest
        ]
      ]
