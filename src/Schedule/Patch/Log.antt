-- ===== src/Schedule/Patch/Log.antt =====
-- schedule/Database.cpp: the delays of a participant as a log, the newest first, and the entries of a
-- route as what the log has made of it.
use rmf_traffic.Base.{
  ℕ, ◌≤◌, ◌<◌, ◌≡◌, refl, sym, ap, ◌∙◌, inl, inr, true, false, none, some, List, [], ◌∷◌, ltb,
  if◌then◌else◌, arith, Bool-cases, All,
}
use mathlib.Core.Option.{some-injective}
use rmf_traffic.Base.Int.{ℤ}
use rmf_traffic.Route.{Route, delayed}
use rmf_traffic.Schedule.Entry.{RouteEntry, inserted, changed, version_of, route_of}
use rmf_traffic.Schedule.Patch.Ancestor.{
  Rises, known_at, known_at-newer, known_at-none, known_at_self,
}

abbrev pub DelayLog : Type 0
DelayLog = List (ℕ × ℤ)

abbrev pub UpTo : ℕ → DelayLog → Type 0
UpTo v log = All (λ e. e.0 ≤ v) log

abbrev pub Descends : DelayLog → Type 0
Descends [] = Unit
Descends ((v, d) ∷ log) = All (λ e. e.0 < v) log × Descends log

-- The entries of a route that is there follow the log: each delay since the route was inserted has
-- made an entry, and an update of the description none of the log.
abbrev pub Logged : RouteEntry → DelayLog → Type 0
Logged (inserted b) log = UpTo b.schedule_version log × ((r : Route) × (b.route ≡ some r))
Logged (changed b none p) log = UpTo b.schedule_version log × (b.route ≡ route_of p) × Logged p log
Logged (changed b (some d) p) [] = ⊥
Logged (changed b (some d) p) ((v, e) ∷ log) =
    (v ≡ b.schedule_version)
    × (e ≡ d)
    × ((r : Route) × (route_of p ≡ some r) × (b.route ≡ some (delayed d r)))
    × Logged p log

-- The delays after a version
abbrev pub recent : ℕ → DelayLog → DelayLog
recent after [] = []
recent after ((v, d) ∷ log) =
    let rest = recent after log in if ltb after v then (v, d) ∷ rest else []

abbrev pub delayed_by : DelayLog → Route → Route
delayed_by [] r = r
delayed_by ((v, d) ∷ log) r = delayed d (delayed_by log r)

pub UpTo-le : (v w : ℕ) (log : DelayLog) → v ≤ w → UpTo v log → UpTo w log
UpTo-le v w [] h u = tt
UpTo-le v w (e ∷ log) h u = (omega (arith, u.0), UpTo-le v w log h u.1)

pub recent-nil : (after v : ℕ) (log : DelayLog) → v ≤ after → UpTo v log → recent after log ≡ []
recent-nil after v [] h u = refl
recent-nil after v ((w, d) ∷ log) h u =
    let e : ltb after w ≡ false = ground (arith, u.0) in rw e refl

pub Logged-UpTo :
    (e : RouteEntry) (log : DelayLog) → Rises e → Logged e log → UpTo (version_of e) log
Logged-UpTo (inserted b) log r l = l.0
Logged-UpTo (changed b none p) log r l = l.0
Logged-UpTo (changed b (some d) p) [] r l = absurd l
Logged-UpTo (changed b (some d) p) ((v, e) ∷ log) r l = (
  omega (arith, l.0),
  UpTo-le (version_of p) b.schedule_version log (omega (arith, r.0)) (Logged-UpTo p log r.2 l.3),
)

pub Logged-route :
    (e : RouteEntry) (log : DelayLog) → Logged e log → (r : Route) × (route_of e ≡ some r)
Logged-route (inserted b) log l = l.1
Logged-route (changed b none p) log l = let (r, has) = Logged-route p log l.2 in (r, l.1 ∙ has)
Logged-route (changed b (some d) p) [] l = absurd l
Logged-route (changed b (some d) p) ((v, e) ∷ log) l = (delayed d l.2.0, l.2.2)

-- The newest known entry, with its route, and what the log has made of it since
abbrev pub Since : ℕ → DelayLog → RouteEntry → RouteEntry → Type 0
Since after log last e =
    (r : Route) × (route_of last ≡ some r) × (route_of e ≡ some (delayed_by (recent after log) r))

module _ (after : ℕ) where
  Since-self :
      (e last : RouteEntry) (log : DelayLog)
      → Rises e
      → Logged e log
      → version_of e ≤ after
      → known_at after e ≡ some last
      → Since after log last e
  Since-self e last log r l h known =
      let same : e ≡ last = some-injective e last (sym (known_at_self after e h) ∙ known) in
      let none_since = recent-nil after (version_of e) log h (Logged-UpTo e log r l) in
      let (route, has) = Logged-route e log l in
      (
        route,
        rw (← same) has,
        has ∙ ap (λ (x : DelayLog). some (delayed_by x route)) (sym none_since),
      )

  pub Logged-Since :
      (e last : RouteEntry) (log : DelayLog)
      → Rises e
      → Logged e log
      → known_at after e ≡ some last
      → Since after log last e
  Logged-Since (inserted b) last log r l known = elim (Bool-cases (ltb after b.schedule_version)) [
    | inl newer ↦ absurd (cc (known_at-none after b (ground (arith, newer))))
    | inr older ↦ Since-self (inserted b) last log r l (ground (arith, older)) known
  ]
  Logged-Since (changed b none p) last log r l known =
      elim (Bool-cases (ltb after b.schedule_version)) [
        | inl newer ↦
            let (route, has, now) =
              Logged-Since p last log r.2 l.2
                (sym (known_at-newer after b none p (ground (arith, newer))) ∙ known) in
            (route, has, l.1 ∙ now)
        | inr older ↦ Since-self (changed b none p) last log r l (ground (arith, older)) known
      ]
  Logged-Since (changed b (some d) p) last [] r l known = absurd l
  Logged-Since (changed b (some d) p) last ((v, e) ∷ log) r l known =
      elim (Bool-cases (ltb after b.schedule_version)) [
        | inl newer ↦
            let (route, has, now) =
              Logged-Since p last log r.2 l.3
                (sym (known_at-newer after b (some d) p (ground (arith, newer))) ∙ known) in
            let logged : ltb after v ≡ true = rw (l.0) newer in
            let same =
              some-injective l.2.0 (delayed_by (recent after log) route) (sym l.2.1 ∙ now) in
            (route, has, rw logged (rw (l.1) (l.2.2 ∙ ap (λ (x : Route). some (delayed d x)) same)))
        | inr older ↦
            Since-self (changed b (some d) p) last ((v, e) ∷ log) r l (ground (arith, older)) known
      ]
