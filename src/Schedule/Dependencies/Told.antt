-- ===== src/Schedule/Dependencies/Told.antt =====
-- schedule/DependencyTracker.cpp: what a call tells, and who waits after it.
use rmf_traffic.Base.{
  ℕ, ◌≤◌, ◌<◌, ◌≡◌, refl, ◌∙◌, ap, subst, inl, inr, Bool, true, false, Option, none, some, List, [],
  ◌∷◌, ◌&&◌, length, get_or, ltb, leb, ◌==◌, if◌then◌else◌, arith, All, Contains, Bool-cases,
}
use rmf_traffic.Base.Assoc.{
  lookup, insert, lookup_or, lookup_or-insert_same, lookup_or-insert_other,
}
use rmf_traffic.Schedule.Dependencies.{
  CheckpointDependencies, RouteDependencies, PlanDependencies, TrafficDependencies, Notice, reach,
  reach_checkpoints, reach_routes, reached,
}
use rmf_traffic.Schedule.Dependencies.Waiting.{
  waiting, IsOrdered, RoutesOrdered, PlansOrdered, AllOrdered, All-lookup_or, All-insert,
  lookup-lookup_or, lookup-none, lookup_or-reach_checkpoints, Contains-append_left,
  Contains-append_right, reach_checkpoints-tells, lookup_or-reach_routes,
}

abbrev pub at_plan : ℕ → ℕ → ℕ → PlanDependencies → List ℕ
at_plan pl r c plans = lookup_or c [] (lookup_or r [] (lookup_or pl [] plans))

module _ (live : ℕ → Bool) where
  reach_checkpoints-above :
      (n limit : ℕ) (cs : CheckpointDependencies)
      → All (λ e. n < e.0) cs
      → All (λ e. n < e.0) (reach_checkpoints live limit cs).0
  unfolding reach_checkpoints
  reach_checkpoints-above n limit [] a = tt
  reach_checkpoints-above n limit ((c, ws) ∷ cs) a = elim (Bool-cases (leb c limit)) [
    | inl b ↦ rw b (reach_checkpoints-above n limit cs a.1)
    | inr b ↦ rw b a
  ]

  reach_checkpoints-IsOrdered :
      (limit : ℕ) (cs : CheckpointDependencies)
      → IsOrdered cs
      → IsOrdered (reach_checkpoints live limit cs).0
  unfolding reach_checkpoints
  reach_checkpoints-IsOrdered limit [] o = tt
  reach_checkpoints-IsOrdered limit ((c, ws) ∷ cs) o = elim (Bool-cases (leb c limit)) [
    | inl b ↦ rw b (reach_checkpoints-IsOrdered limit cs o.1)
    | inr b ↦ rw b o
  ]

  reach_routes-RoutesOrdered :
      (cps : List ℕ) (routes : RouteDependencies)
      → RoutesOrdered routes
      → RoutesOrdered (reach_routes live cps routes).0
  unfolding reach_routes
  reach_routes-RoutesOrdered cps [] o = tt
  reach_routes-RoutesOrdered cps ((r, cs) ∷ routes) o =
      let rest = reach_routes-RoutesOrdered cps routes o.1 in
      elim (Bool-cases (leb (length cps) r)) [
        | inl b ↦ rw b (o.0, rest)
        | inr b ↦ rw b (reach_checkpoints-IsOrdered (get_or cps r 0) cs o.0, rest)
      ]

  reach_routes-tells :
      (cps : List ℕ) (r c w : ℕ) (routes : RouteDependencies)
      → RoutesOrdered routes
      → live w ≡ true
      → r < length cps
      → c ≤ get_or cps r 0
      → Contains w (lookup_or c [] (lookup_or r [] routes))
      → Contains (reach w) (reach_routes live cps routes).1
  unfolding reach_routes
  reach_routes-tells cps r c w [] o l b k h = absurd h
  reach_routes-tells cps r c w ((j, cs) ∷ routes) o l b k h = elim (Bool-cases (j == r)) [
    | inl e ↦
        let same : j ≡ r = ground (arith, e) in
        let out : leb (length cps) j ≡ false = ground (arith, same) in
        let here : Contains w (lookup_or c [] cs) =
          subst (λ (x : CheckpointDependencies). Contains w (lookup_or c [] x)) (rw e refl) h in
        rw out (
          Contains-append_left live _ _ _
            (reach_checkpoints-tells live (get_or cps j 0) c w cs o.0 l (rw same k) here))
    | inr e ↦
        let there : Contains w (lookup_or c [] (lookup_or r [] routes)) =
          subst (λ (x : CheckpointDependencies). Contains w (lookup_or c [] x)) (rw e refl) h in
        let rest = reach_routes-tells cps r c w routes o.1 l b k there in
        elim (Bool-cases (leb (length cps) j)) [
          | inl out ↦ rw out rest
          | inr out ↦ rw out (Contains-append_right live _ _ _ rest)
        ]
  ]

  -- What reached does to the subscriptions that wait
  abbrev pub Reaches :
      ℕ → ℕ → List ℕ → TrafficDependencies → TrafficDependencies × List Notice → Type 0
  Reaches p pl cps deps (deps', told) =
      AllOrdered deps'
      × ((p' pl' r c : ℕ)
          → waiting p' pl' r c deps' ≡ (
              if (p == p') && ((pl == pl') && (ltb r (length cps) && leb c (get_or cps r 0)))
              then []
              else waiting p' pl' r c deps))
      × ((r c w : ℕ)
          → live w ≡ true
          → r < length cps
          → c ≤ get_or cps r 0
          → Contains w (waiting p pl r c deps)
          → Contains (reach w) told)

  pub plans_of :
      (p : ℕ) (deps : TrafficDependencies) → AllOrdered deps → PlansOrdered (lookup_or p [] deps)
  plans_of p deps o = All-lookup_or PlansOrdered p [] deps tt o

  routes_of :
      (pl : ℕ) (plans : PlanDependencies)
      → PlansOrdered plans
      → RoutesOrdered (lookup_or pl [] plans)
  routes_of pl plans o = All-lookup_or RoutesOrdered pl [] plans tt o

  module _ (p : ℕ) (deps : TrafficDependencies) (out : ℕ → ℕ → ℕ → Bool) where
    -- A change to the plans of one participant
    pub waiting-insert :
        (plans : PlanDependencies)
        → ((pl r c : ℕ)
            → at_plan pl r c plans
              ≡ (if out pl r c then [] else at_plan pl r c (lookup_or p [] deps)))
        → (p' pl r c : ℕ)
        → waiting p' pl r c (insert p plans deps)
          ≡ (if (p == p') && out pl r c then [] else waiting p' pl r c deps)
    waiting-insert plans h p' pl r c = elim (Bool-cases (p == p')) [
      | inl e ↦
          let same : p ≡ p' = ground (arith, e) in
          ap (at_plan pl r c) (lookup_or-insert_same p' p [] plans deps e)
          ∙ h pl r c
          ∙ (rw (e, same) refl)
      | inr e ↦ ap (at_plan pl r c) (lookup_or-insert_other p' p [] plans deps e) ∙ (rw e refl)
    ]

  routes_after :
      (cps : List ℕ) (r c : ℕ) (routes : RouteDependencies)
      → RoutesOrdered routes
      → lookup_or c [] (lookup_or r [] (reach_routes live cps routes).0) ≡ (
          if ltb r (length cps) && leb c (get_or cps r 0)
          then []
          else lookup_or c [] (lookup_or r [] routes))
  routes_after cps r c routes o =
      let step =
        ap (λ (x : CheckpointDependencies). lookup_or c [] x)
          (lookup_or-reach_routes live cps r routes) in
      elim (Bool-cases (leb (length cps) r)) [
        | inl b ↦
            let in_range : ltb r (length cps) ≡ false = ground (arith, b) in
            step ∙ (rw (b, in_range) refl)
        | inr b ↦
            let in_range : ltb r (length cps) ≡ true = ground (arith, b) in
            step
            ∙ (rw (b, in_range)
                (lookup_or-reach_checkpoints live (get_or cps r 0) c (lookup_or r [] routes)
                  (All-lookup_or IsOrdered r [] routes tt o)))
      ]

  module _ (p pl : ℕ) (cps : List ℕ) (deps : TrafficDependencies) where
    abbrev passed : ℕ → ℕ → ℕ → Bool
    passed pl' r c = (pl == pl') && (ltb r (length cps) && leb c (get_or cps r 0))

    nothing_waits :
        (plans : PlanDependencies)
        → lookup pl plans ≡ none
        → (pl' r c : ℕ)
        → at_plan pl' r c plans ≡ (if passed pl' r c then [] else at_plan pl' r c plans)
    nothing_waits plans e pl' r c = elim (Bool-cases (passed pl' r c)) [
      | inl b ↦
          let same : pl ≡ pl' = ground (arith, b) in
          let gone : lookup_or pl' [] plans ≡ [] = rw (← same) (lookup-none pl [] plans e) in
          rw b (rw gone refl)
      | inr b ↦ rw b refl
    ]

    some_wait :
        (routes : RouteDependencies) (plans : PlanDependencies)
        → RoutesOrdered routes
        → lookup pl plans ≡ some routes
        → (pl' r c : ℕ)
        → at_plan pl' r c (insert pl (reach_routes live cps routes).0 plans)
          ≡ (if passed pl' r c then [] else at_plan pl' r c plans)
    some_wait routes plans o e pl' r c = elim (Bool-cases (pl == pl')) [
      | inl b ↦
          let same : pl ≡ pl' = ground (arith, b) in
          let was : lookup_or pl' [] plans ≡ routes =
            rw (← same) (lookup-lookup_or pl [] routes plans e) in
          let now : lookup_or pl' [] (insert pl (reach_routes live cps routes).0 plans)
              ≡ (reach_routes live cps routes).0 =
            lookup_or-insert_same pl' pl [] (reach_routes live cps routes).0 plans b in
          rw now (rw was (rw b (routes_after cps r c routes o)))
      | inr b ↦
          let now : lookup_or pl' [] (insert pl (reach_routes live cps routes).0 plans)
              ≡ lookup_or pl' [] plans =
            lookup_or-insert_other pl' pl [] (reach_routes live cps routes).0 plans b in
          rw now (rw b refl)
    ]

  -- After reached for a plan nobody waits any more for the checkpoints of it that are reached, all
  -- other subscriptions wait as before, and each live subscription that waited for one of the
  -- reached checkpoints is told that it is reached.
  pub reached-Reaches :
      (p pl : ℕ) (cps : List ℕ) (deps : TrafficDependencies)
      → AllOrdered deps
      → Reaches p pl cps deps (reached live p pl cps deps)
  unfolding reached
  reached-Reaches p pl cps deps o = go (lookup pl (lookup_or p [] deps)) refl
    where
      go :
          (found : Option RouteDependencies)
          → lookup pl (lookup_or p [] deps) ≡ found
          → Reaches p pl cps deps (reached live p pl cps deps)
      go none e =
          rw (e, reached)
            (
              All-insert PlansOrdered p (lookup_or p [] deps) deps (plans_of p deps o) o,
              waiting-insert p deps (passed p pl cps deps) (lookup_or p [] deps)
                  (nothing_waits p pl cps deps (lookup_or p [] deps) e),
              λ r c w l b k h. absurd (
                  subst (λ (x : RouteDependencies). Contains w (lookup_or c [] (lookup_or r [] x)))
                    (lookup-none pl [] (lookup_or p [] deps) e) h),
            )
      go (some routes) e =
          let found = lookup-lookup_or pl [] routes (lookup_or p [] deps) e in
          let ordered =
            subst RoutesOrdered found (routes_of pl (lookup_or p [] deps) (plans_of p deps o)) in
          let routes' = (reach_routes live cps routes).0 in
          let plans' = insert pl routes' (lookup_or p [] deps) in
          rw (e, reached)
            (
              All-insert PlansOrdered p plans' deps
                  (All-insert RoutesOrdered pl routes' (lookup_or p [] deps)
                    (reach_routes-RoutesOrdered cps routes ordered) (plans_of p deps o))
                  o,
              waiting-insert p deps (passed p pl cps deps) plans'
                  (some_wait p pl cps deps routes (lookup_or p [] deps) ordered e),
              λ r c w l b k h. reach_routes-tells cps r c w routes ordered l b k (
                  subst (λ (x : RouteDependencies). Contains w (lookup_or c [] (lookup_or r [] x)))
                    found h),
            )
