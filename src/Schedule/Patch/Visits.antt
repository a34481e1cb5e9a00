-- ===== src/Schedule/Patch/Visits.antt =====
-- schedule/Database.cpp: the visit of a route by a patch inspector, whichever its case.
use rmf_traffic.Base.{
  ℕ, ◌≤◌, ◌<◌, ◌≡◌, refl, sym, ap, ◌∙◌, subst, inl, inr, ◌⊎◌, true, false, Option, none, some, ◌==◌,
  arith, Option-cases,
}
use rmf_traffic.Base.Assoc.{lookup}
use rmf_traffic.Route.{Route}
use rmf_traffic.Schedule.Entry.{RouteEntry, base, version_of, route_of, depth}
use rmf_traffic.Schedule.Database.{ParticipantStorage}
use rmf_traffic.Schedule.Patch.{ParticipantChanges, adding, erasing, delaying, item_of}
use rmf_traffic.Schedule.Patch.Ancestor.{known_at}
use rmf_traffic.Schedule.Patch.Log.{DelayLog, Descends, Logged, recent, recent-nil, Logged-UpTo}
use rmf_traffic.Schedule.Patch.Collected.{collect_delays-insert_all}
use rmf_traffic.Schedule.Patch.Filled.{insert_all-delays, recent-Descends}
use rmf_traffic.Schedule.Patch.Noting.{
  IsLogged, known_route, Dropped, Added, IsSound, IsNoted, noting, note_change-new,
  note_change-never, note_change-again, note_change-gone, note_change-dropped, note_change-delayed,
}
use rmf_traffic.Schedule.Patch.Steps.{
  Owned-base, known_at-cases, All-snoc, Contains-snoc, Contains-snoc_last, At-snoc, At-snoc_last,
  Extends-refl, Notes, noted_never, noted_added, noted_dropped, noted_delayed,
}

module _ (after : ℕ) (log : DelayLog) (chains : ParticipantStorage) (descends : Descends log)
    (p id : ℕ) (e : RouteEntry) (at : lookup id chains ≡ some e) (good : IsLogged log p id e)
    (c : ParticipantChanges) (sound : IsSound after log chains c) where
  abbrev NotedBy : ParticipantChanges → Type 0
  NotedBy c' = Notes after log chains id e c c'

  named : (base e).storage_id ≡ id
  named = (Owned-base p id e good.owned).1

  noted_same : IsNoted after log chains id e c → NotedBy c
  noted_same n = record { sound = sound; noted = n; extends = Extends-refl after log chains c }

  visit_add :
      (r : Route) → known_route after e ≡ none → route_of e ≡ some r → NotedBy (adding e r c)
  visit_add r k h = record {
    sound = record {
      dropped = sound.dropped;
      added =
          All-snoc (Added after log chains) c.additions (item_of e r) sound.added
            (e, subst (λ (x : ℕ). lookup x chains ≡ some e) (sym named) at, h, k);
      delayed = sound.delayed;
    };
    noted =
        noted_added after log chains id e (adding e r c) r k h
          (At-snoc_last after log chains id (item_of e r) c.additions named);
    extends = record {
      drops = λ i x. x;
      adds = λ i x. At-snoc after log chains i (item_of e r) c.additions x;
      delays = λ x. x;
    };
  }

  visit_drop :
      (r : Route) → known_route after e ≡ some r → route_of e ≡ none → NotedBy (erasing e c)
  visit_drop r k h = record {
    sound = record {
      dropped =
          All-snoc (Dropped after log chains) c.erasures (base e).storage_id sound.dropped
            (subst (Dropped after log chains) (sym named) (e, at, h, (r, k)));
      added = sound.added;
      delayed = sound.delayed;
    };
    noted =
        noted_dropped after log chains id e (erasing e c) r k h
          (Contains-snoc_last id (base e).storage_id c.erasures (sym named));
    extends = record {
      drops = λ i x. Contains-snoc i (base e).storage_id c.erasures x;
      adds = λ i x. x;
      delays = λ x. x;
    };
  }

  visit_delay :
      (last : RouteEntry) (r s : Route)
      → known_at after e ≡ some last
      → known_route after e ≡ some r
      → route_of e ≡ some s
      → Logged e log
      → NotedBy (delaying last e c)
  visit_delay last r s known k h logged =
      let filled =
        collect_delays-insert_all after e last log c.delays good.rises logged known
        ∙ insert_all-delays (recent after log) c.delays (recent-Descends after log descends)
            sound.delayed in
      record {
        sound = record { dropped = sound.dropped; added = sound.added; delayed = inr filled };
        noted = noted_delayed after log chains id e (delaying last e c) r s k h (inr filled);
        extends = record { drops = λ i x. x; adds = λ i x. x; delays = λ x. filled };
      }

  Logged-of : (s : Route) → route_of e ≡ some s → Logged e log
  Logged-of s h = go good.logged
    where
      go : (route_of e ≡ none) ⊎ Logged e log → Logged e log
      go (inl gone) = absurd (cc)
      go (inr l) = l

  known_via :
      (last : RouteEntry) → known_at after e ≡ some last → known_route after e ≡ route_of last
  known_via last known = rw (known, known_route) refl

  -- The newest entry is known.
  visit_same :
      (last : RouteEntry)
      → known_at after e ≡ some last
      → e ≡ last
      → version_of e ≤ after
      → (o : Option Route) → route_of e ≡ o
      → NotedBy c
  visit_same last known same h none gone =
      noted_same
        (noted_never after log chains id e c (known_via last known ∙ (rw (← same) gone)) gone)
  visit_same last known same h (some s) has = noted_same (
      noted_delayed after log chains id e c s s (known_via last known ∙ (rw (← same) has)) has (
        inl
          (recent-nil after (version_of e) log h (Logged-UpTo e log good.rises (Logged-of s has)))))

  -- No entry is known.
  visit_new :
      known_at after e ≡ none → (o : Option Route) → route_of e ≡ o → NotedBy (noting after e c)
  visit_new unknown none gone =
      let k : known_route after e ≡ none = rw (unknown, known_route) refl in
      let step : noting after e c ≡ c = rw unknown (rw (note_change-never e gone) refl) in
      subst NotedBy (sym step) (noted_same (noted_never after log chains id e c k gone))
  visit_new unknown (some r) has =
      let k : known_route after e ≡ none = rw (unknown, known_route) refl in
      let step : noting after e c ≡ adding e r c = rw unknown (rw (note_change-new e r has) refl) in
      subst NotedBy (sym step) (visit_add r k has)

  -- An older entry is known.
  visit_older :
      (last : RouteEntry)
      → known_at after e ≡ some last
      → depth last < depth e
      → (k o : Option Route) → route_of last ≡ k
      → route_of e ≡ o
      → NotedBy (noting after e c)
  visit_older last known below none none was gone =
      let other : (depth last == depth e) ≡ false = ground (arith, below) in
      let step : noting after e c ≡ c =
        rw known (rw other (rw (note_change-gone e last was gone) refl)) in
      subst NotedBy (sym step)
        (noted_same (noted_never after log chains id e c (known_via last known ∙ was) gone))
  visit_older last known below none (some r) was has =
      let other : (depth last == depth e) ≡ false = ground (arith, below) in
      let step : noting after e c ≡ adding e r c =
        rw known (rw other (rw (note_change-again e last r was has) refl)) in
      subst NotedBy (sym step) (visit_add r (known_via last known ∙ was) has)
  visit_older last known below (some s) none was gone =
      let other : (depth last == depth e) ≡ false = ground (arith, below) in
      let step : noting after e c ≡ erasing e c =
        rw known (rw other (rw (note_change-dropped e last s was gone) refl)) in
      subst NotedBy (sym step) (visit_drop s (known_via last known ∙ was) gone)
  visit_older last known below (some s) (some r) was has =
      let other : (depth last == depth e) ≡ false = ground (arith, below) in
      let step : noting after e c ≡ delaying last e c =
        rw known (rw other (rw (note_change-delayed e last s r was has) refl)) in
      subst NotedBy (sym step)
        (visit_delay last s r known (known_via last known ∙ was) has (Logged-of r has))

  -- A visit notes what is to be noted of the route, nothing that is not so, and keeps the rest.
  pub visit_notes : NotedBy (noting after e c)
  visit_notes = elim (Option-cases (known_at after e)) [
    | inl unknown ↦ visit_new unknown (route_of e) refl
    | inr (last, known) ↦ elim (known_at-cases after e last known) [
      | inl (same, h) ↦
          let here : (depth last == depth e) ≡ true = ground (arith, ap depth same) in
          let step : noting after e c ≡ c = rw known (rw here refl) in
          subst NotedBy (sym step) (visit_same last known same h (route_of e) refl)
      | inr below ↦ visit_older last known below (route_of last) (route_of e) refl refl
    ]
  ]
