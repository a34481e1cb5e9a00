-- ===== src/Schedule/Patch/Collected.antt =====
-- schedule/Database.cpp: the delays that PatchRelevanceInspector collects along the entries of a
-- route.
use rmf_traffic.Base.{
  ℕ, suc, ◌+◌, ◌≤◌, ◌≡◌, refl, sym, ap, ◌∙◌, inl, inr, true, false, none, some, List, [], ◌∷◌, ltb,
  ◌==◌, arith, Bool-cases,
}
use mathlib.Core.Option.{some-injective}
use rmf_traffic.Base.Int.{ℤ}
use rmf_traffic.Schedule.Entry.{RouteEntry, inserted, changed, version_of, depth}
use rmf_traffic.Schedule.Patch.{insert_delay, collect_delays}
use rmf_traffic.Schedule.Patch.Ancestor.{
  Rises, known_at, known_at-newer, known_at-none, known_at_self,
}
use rmf_traffic.Schedule.Patch.Log.{DelayLog, Logged, recent, recent-nil, Logged-UpTo}

pub known_at-depth :
    (after : ℕ) (e last : RouteEntry) → known_at after e ≡ some last → depth last ≤ depth e
unfolding depth
known_at-depth after (inserted b) last known = elim (Bool-cases (ltb after b.schedule_version)) [
  | inl newer ↦ absurd (cc (known_at-none after b (ground (arith, newer))))
  | inr older ↦
      let same =
        some-injective (inserted b) last
          (sym (known_at_self after (inserted b) (ground (arith, older))) ∙ known) in
      rw (← same) (omega arith)
]
known_at-depth after (changed b d p) last known = elim (Bool-cases (ltb after b.schedule_version)) [
  | inl newer ↦ omega (
    arith,
    known_at-depth after p last (sym (known_at-newer after b d p (ground (arith, newer))) ∙ known),
  )
  | inr older ↦
      let same =
        some-injective (changed b d p) last
          (sym (known_at_self after (changed b d p) (ground (arith, older))) ∙ known) in
      rw (← same) (omega arith)
]

-- The delays put in one by one, the newest first
abbrev pub insert_all : DelayLog → List (ℕ × ℤ) → List (ℕ × ℤ)
insert_all [] ds = ds
insert_all ((v, d) ∷ log) ds = insert_all log (insert_delay v d ds)

collect_self : (e : RouteEntry) (ds : List (ℕ × ℤ)) → collect_delays (depth e) e ds ≡ ds
unfolding collect_delays
collect_self (inserted b) ds = refl
collect_self (changed b none p) ds =
    let here : (depth p + 1 == suc (depth p)) ≡ true = ground arith in rw here refl
collect_self (changed b (some d) p) ds =
    let here : (depth p + 1 == suc (depth p)) ≡ true = ground arith in rw here refl

module _ (after : ℕ) where
  collect_older :
      (e last : RouteEntry) (log : DelayLog) (ds : List (ℕ × ℤ))
      → Rises e
      → Logged e log
      → version_of e ≤ after
      → known_at after e ≡ some last
      → collect_delays (depth last) e ds ≡ insert_all (recent after log) ds
  collect_older e last log ds r l h known =
      let same : e ≡ last = some-injective e last (sym (known_at_self after e h) ∙ known) in
      let none_since = recent-nil after (version_of e) log h (Logged-UpTo e log r l) in
      rw (← same) (collect_self e ds ∙ ap (λ (x : DelayLog). insert_all x ds) (sym none_since))

  pub collect_delays-insert_all :
      (e last : RouteEntry) (log : DelayLog) (ds : List (ℕ × ℤ))
      → Rises e
      → Logged e log
      → known_at after e ≡ some last
      → collect_delays (depth last) e ds ≡ insert_all (recent after log) ds
  unfolding collect_delays
  collect_delays-insert_all (inserted b) last log ds r l known =
      elim (Bool-cases (ltb after b.schedule_version)) [
        | inl newer ↦ absurd (cc (known_at-none after b (ground (arith, newer))))
        | inr older ↦ collect_older (inserted b) last log ds r l (ground (arith, older)) known
      ]
  collect_delays-insert_all (changed b none p) last log ds r l known =
      elim (Bool-cases (ltb after b.schedule_version)) [
        | inl newer ↦
            let known' = sym (known_at-newer after b none p (ground (arith, newer))) ∙ known in
            let further : (depth p + 1 == depth last) ≡ false =
              ground (arith, known_at-depth after p last known') in
            rw further (collect_delays-insert_all p last log ds r.2 l.2 known')
        | inr older ↦ collect_older (changed b none p) last log ds r l (ground (arith, older)) known
      ]
  collect_delays-insert_all (changed b (some d) p) last [] ds r l known = absurd l
  collect_delays-insert_all (changed b (some d) p) last ((v, e) ∷ log) ds r l known =
      elim (Bool-cases (ltb after b.schedule_version)) [
        | inl newer ↦
            let known' = sym (known_at-newer after b (some d) p (ground (arith, newer))) ∙ known in
            let further : (depth p + 1 == depth last) ≡ false =
              ground (arith, known_at-depth after p last known') in
            let logged : ltb after v ≡ true = rw (l.0) newer in
            rw further (
              rw logged (
                collect_delays-insert_all p last log (insert_delay b.schedule_version d ds) r.2 l.3
                  known'
                ∙ (rw (l.0) (rw (l.1) refl))))
        | inr older ↦
            collect_older (changed b (some d) p) last ((v, e) ∷ log) ds r l (ground (arith, older))
              known
      ]
