-- ===== src/Blockade/Constraint/Partial.antt =====
-- partial_evaluate beside evaluate, and the participants that a constraint reads.
use rmf_traffic.Base.{
  ℕ, ◌≡◌, ◌≢◌, refl, inl, inr, Bool, true, false, none, some, List, [], ◌∷◌, ◌++◌, arith, All,
  Option-cases,
}
use rmf_traffic.Base.Assoc.{lookup}
use rmf_traffic.Blockade.Range.{ReservedRange, State}
use rmf_traffic.Blockade.Timeline.{Timeline, is_behind, lowest}
use rmf_traffic.Blockade.Constraint.{
  Constraint, Constraints, blockage, passed, always_valid, behind, all_of, any_of, nil, cons,
  evaluate, evaluate_all, evaluate_any, partial_evaluate, partial_all, partial_any, dependencies,
  dependencies_of,
}

-- The second state has the ranges of the first, and maybe more.
abbrev pub Extends : State → State → Type 0
Extends s s' = (k : ℕ) (r : ReservedRange) → lookup k s ≡ some r → lookup k s' ≡ some r

-- A conjunction is only ever told to fail, and a disjunction only ever to hold.
partial_all-false :
    (cs : Constraints) (s : State) (b : Bool) → partial_all cs s ≡ some b → b ≡ false
unfolding partial_all
partial_all-false nil s b p = absurd (cc)
partial_all-false (cons c cs) s b p = ground (arith, partial_all-false cs s b)

partial_any-true : (cs : Constraints) (s : State) (b : Bool) → partial_any cs s ≡ some b → b ≡ true
unfolding partial_any
partial_any-true nil s b p = absurd (cc)
partial_any-true (cons c cs) s b p = ground (arith, partial_any-true cs s b)

mutual
  unfolding evaluate partial_evaluate

  agree :
      (c : Constraint) (s s' : State) (b b' : Bool)
      → Extends s s'
      → partial_evaluate c s ≡ some b
      → evaluate c s' ≡ some b'
      → b ≡ b'
  agree (blockage by hold end) s s' b b' x p e = elim (Option-cases (lookup by s)) [
    | inl n ↦ ground (arith, n)
    | inr (r, h) ↦ ground (arith, h, x by r h)
  ]
  agree (passed q index) s s' b b' x p e = elim (Option-cases (lookup q s)) [
    | inl n ↦ ground (arith, n)
    | inr (r, h) ↦ ground (arith, h, x q r h)
  ]
  agree always_valid s s' b b' x p e = cc
  agree (behind q r timeline) s s' b b' x p e = elim (Option-cases (lookup q s)) [
    | inl n ↦ ground (arith, n)
    | inr (a, h) ↦ elim (Option-cases (lookup r s)) [
      | inl n ↦ ground (arith, n, h)
      | inr (a', h') ↦ ground (arith, h, h', x q a h, x r a' h')
    ]
  ]
  agree (all_of cs) s s' b b' x p e = agree_all cs s s' b b' x p e
  agree (any_of nil) s s' b b' x p e = absurd (cc)
  agree (any_of (cons c cs)) s s' b b' x p e = agree_any (cons c cs) s s' b b' x p e

  agree_all :
      (cs : Constraints) (s s' : State) (b b' : Bool)
      → Extends s s'
      → partial_all cs s ≡ some b
      → evaluate_all cs s' ≡ some b'
      → b ≡ b'
  agree_all nil s s' b b' x p e = absurd (cc)
  agree_all (cons c cs) s s' b b' x p e = ground (
    arith,
    agree c s s' true false x,
    agree c s s' false true x,
    agree_all cs s s' b b' x,
    partial_all-false (cons c cs) s b p,
  )

  agree_any :
      (cs : Constraints) (s s' : State) (b b' : Bool)
      → Extends s s'
      → partial_any cs s ≡ some b
      → evaluate_any cs s' ≡ some b'
      → b ≡ b'
  agree_any nil s s' b b' x p e = absurd (cc)
  agree_any (cons c cs) s s' b b' x p e = ground (
    arith,
    agree c s s' true false x,
    agree c s s' false true x,
    agree_any cs s s' b b' x,
    partial_any-true (cons c cs) s b p,
  )

-- Where partial_evaluate knows the value of a constraint in a state, evaluate has that value in
-- every state that extends it, unless it throws there.
pub partial_evaluate-evaluate :
    (c : Constraint) (s s' : State) (b b' : Bool)
    → Extends s s'
    → partial_evaluate c s ≡ some b
    → evaluate c s' ≡ some b'
    → b ≡ b'
partial_evaluate-evaluate c s s' b b' = agree c s s' b b'

-- The timelines of a constraint have an entry: the code throws on an empty one.
unfoldable mutual
  pub HasTimelines : Constraint → Type 0
  HasTimelines (blockage by hold end) = Unit
  HasTimelines (passed p index) = Unit
  HasTimelines always_valid = Unit
  HasTimelines (behind p q timeline) = timeline ≢ []
  HasTimelines (all_of cs) = HaveTimelines cs
  HasTimelines (any_of cs) = HaveTimelines cs

  pub HaveTimelines : Constraints → Type 0
  HaveTimelines nil = Unit
  HaveTimelines (cons c cs) = HasTimelines c × HaveTimelines cs

-- A participant that the state knows.
abbrev pub IsIn : State → ℕ → Type 0
IsIn s p = lookup p s ≢ none

All-append_split : (P : ℕ → Type 0) (xs ys : List ℕ) → All P (xs ++ ys) → All P xs × All P ys
All-append_split P [] ys h = (tt, h)
All-append_split P (x ∷ xs) ys h = let r = All-append_split P xs ys h.1 in ((h.0, r.0), r.1)

lowest-ne-none : (t : Timeline) → t ≢ [] → lowest t ≢ none
unfolding lowest
lowest-ne-none [] n = absurd (n refl)
lowest-ne-none (e ∷ []) n = λ h. cc
lowest-ne-none (e ∷ f ∷ t) n = lowest-ne-none (f ∷ t) (λ h. cc)

is_behind_total : (t : Timeline) (a b : ReservedRange) → t ≢ [] → is_behind t a b ≢ none
unfolding is_behind
is_behind_total t a b n = ground (arith, lowest-ne-none t n)

mutual
  unfolding evaluate dependencies HasTimelines

  total :
      (c : Constraint) (s : State)
      → HasTimelines c
      → All (IsIn s) (dependencies c)
      → evaluate c s ≢ none
  total (blockage by hold end) s t d = ground (arith, d.0)
  total (passed q index) s t d = ground (arith, d.0)
  total always_valid s t d = λ h. cc
  total (behind q r timeline) s t d = elim (Option-cases (lookup q s)) [
    | inl n ↦ absurd (d.0 n)
    | inr (a, h) ↦ elim (Option-cases (lookup r s)) [
      | inl n ↦ absurd (d.1.0 n)
      | inr (b, h') ↦ ground (arith, h, h', is_behind_total timeline a b t)
    ]
  ]
  total (all_of cs) s t d = total-All cs s t d
  total (any_of nil) s t d = λ h. cc
  total (any_of (cons c cs)) s t d = total_any (cons c cs) s t d

  total-All :
      (cs : Constraints) (s : State)
      → HaveTimelines cs
      → All (IsIn s) (dependencies_of cs)
      → evaluate_all cs s ≢ none
  total-All nil s t d = λ h. cc
  total-All (cons c cs) s t d =
      let e = All-append_split (IsIn s) (dependencies c) (dependencies_of cs) d in
      ground (arith, total c s t.0 e.0, total-All cs s t.1 e.1)

  total_any :
      (cs : Constraints) (s : State)
      → HaveTimelines cs
      → All (IsIn s) (dependencies_of cs)
      → evaluate_any cs s ≢ none
  total_any nil s t d = λ h. cc
  total_any (cons c cs) s t d =
      let e = All-append_split (IsIn s) (dependencies c) (dependencies_of cs) d in
      ground (arith, total c s t.0 e.0, total_any cs s t.1 e.1)

-- In a state that has every participant that a constraint depends on, evaluate does not throw, if
-- no timeline in it is empty.
pub evaluate_total :
    (c : Constraint) (s : State)
    → HasTimelines c
    → All (IsIn s) (dependencies c)
    → evaluate c s ≢ none
evaluate_total c s t d = total c s t d
