-- ===== src/Schedule/Patch/Upheld/Changes.antt =====
-- schedule/Database.cpp: a change of a participant that has passed the inconsistency check, by the
-- entries that it leaves, and how other participants fare.
use rmf_traffic.Base.{
  ℕ, suc, ◌+◌, ◌%◌, ◌≤◌, ◌<◌, ◌≡◌, refl, subst, Bool, true, Option, some, ◌∷◌, arith, All, length,
  if◌then◌else◌,
}
use rmf_traffic.Base.Modular.{Modular, word, half}
use rmf_traffic.Base.Int.{ℤ, ◌+ℤ◌, ltb_ℤ}
use rmf_traffic.Schedule.Progress.{pull}
use rmf_traffic.Schedule.Database.{Itinerary, ◌>>=◌}
use rmf_traffic.Schedule.Database.Stored.{IsLong}
use rmf_traffic.Schedule.Database.Calls.{
  ItineraryChange, set, extend, delay, clear, Workspace, apply_set, apply_extend, apply_delay_call,
  apply_clear, apply_change,
}
use rmf_traffic.Schedule.Database.Plans.{Planned, IsSendable, Follows}
use rmf_traffic.Schedule.Patch.Log.{DelayLog}
use rmf_traffic.Schedule.Patch.Upheld.{IsUpheld, IsUpheld-later}
use rmf_traffic.Schedule.Patch.Upheld.Calls.{
  Serves-Distinct, insert_items-IsUpheld, clear-IsUpheld, apply_delay-IsUpheld,
}

-- The log of the delays that replace a route's entry: a delay beyond the limit inserts new routes.
abbrev pub grown : ℤ → ItineraryChange → Workspace → DelayLog → DelayLog
grown maximum (set plan its base) w log = log
grown maximum (extend its) w log = log
grown maximum (delay d) w log =
    if ltb_ℤ maximum (w.state.cumulative_delay +ℤ d)
    then log
    else ((w.schedule_version + 1) % word, d) ∷ log
grown maximum clear w log = log

module _ (m : Modular) (live : ℕ → Bool) (maximum : ℤ) (participant : ℕ) where
  abbrev pub Upholds : ℕ → DelayLog → Option Workspace → Type 0
  Upholds v log o =
      (w : Workspace) × (o ≡ some w) × (w.schedule_version ≡ v) × IsUpheld participant v log w.state

  module _ (p : Planned) (w : Workspace) (log : DelayLog) (fits : length p.itinerary ≤ word)
      (low : suc w.schedule_version < half) (follows : Follows p (some w))
      (u : IsUpheld participant w.schedule_version log w.state) where
    abbrev next : ℕ
    next = (w.schedule_version + 1) % word

    next_low : next < half
    next_low = omega (arith, low)

    next_later : w.schedule_version < next
    next_later = omega (arith, low)

    set-Upholds :
        (plan base : ℕ) (its : Itinerary)
        → All IsLong its
        → Upholds next log (apply_set m live maximum participant plan its base w)
    unfolding apply_set
    set-Upholds plan base its long =
        let distinct = Serves-Distinct p.itinerary w.state fits follows.0 in
        let (s, cleared, u₁) =
          clear-IsUpheld participant next next_low w.schedule_version next_later log w.state u
            follows.0.found distinct true in
        let pulled = pull m plan (length its) s.buffered_progress in
        let reset = record s {
          progress = pulled.0;
          buffered_progress = pulled.1;
          schedule_version_of_progress = some next;
          latest_plan_id = plan;
          next_storage_id = base;
        } in
        let begun : IsUpheld participant next log reset = record {
          descends = u₁.descends;
          past = u₁.past;
          kept = u₁.kept;
        } in
        let (s', added, u₂) =
          insert_items-IsUpheld participant next next_low its log reset long begun in
        rw (cleared, ◌>>=◌) (rw (added, ◌>>=◌) (_, refl, refl, u₂))

    extend-Upholds :
        (its : Itinerary)
        → All IsLong its
        → Upholds next log (apply_extend m live maximum participant its w)
    unfolding apply_extend
    extend-Upholds its long =
        let (s', added, u₂) = insert_items-IsUpheld participant next next_low its log w.state long (
          IsUpheld-later participant w.schedule_version next log w.state (omega (arith, next_later))
            u) in
        rw (added, ◌>>=◌)
          (_, refl, refl, record { descends = u₂.descends; past = u₂.past; kept = u₂.kept })

    delay-Upholds :
        (d : ℤ)
        → Upholds next
            (grown maximum (delay d) w log)
            (apply_delay_call m live maximum participant d w)
    unfolding apply_delay_call ◌+ℤ◌
    delay-Upholds d =
        let distinct = Serves-Distinct p.itinerary w.state fits follows.0 in
        let (s', delayed, u₁) =
          apply_delay-IsUpheld participant next next_low w.schedule_version next_later log w.state u
            follows.0.found distinct maximum d in
        rw (delayed, ◌>>=◌) (_, refl, refl, u₁)

    clear-Upholds : Upholds next log (apply_clear m live maximum participant w)
    unfolding apply_clear
    clear-Upholds =
        let distinct = Serves-Distinct p.itinerary w.state fits follows.0 in
        let (s, cleared, u₁) =
          clear-IsUpheld participant next next_low w.schedule_version next_later log w.state u
            follows.0.found distinct true in
        rw (cleared, ◌>>=◌) (_, refl, refl, u₁)

  -- Where the state of a participant is that of an itinerary, with no more routes than there are storage
  -- ids, and of a plan, and its entries follow a log of the delays: a change with routes of at least two
  -- waypoints, at a version of the schedule in the lower half of the counter, makes the next version
  -- without an exception, and leaves entries that follow the log, which a delay within the limit makes
  -- longer. That entries follow the log means that the versions rise along each route's entries, that
  -- each delay since the route was inserted has moved it, and that a route that is not active is
  -- cleared.
  pub apply_change-Upholds :
      (c : ItineraryChange) (p : Planned) (w : Workspace) (log : DelayLog)
      → IsSendable c
      → length p.itinerary ≤ word
      → suc w.schedule_version < half
      → Follows p (some w)
      → IsUpheld participant w.schedule_version log w.state
      → Upholds
          (suc w.schedule_version)
          (grown maximum c w log)
          (apply_change m live maximum participant c w)
  unfolding apply_change
  apply_change-Upholds c p w log ok fits low follows u =
      let same : (w.schedule_version + 1) % word ≡ suc w.schedule_version = omega (arith, low) in
      subst
        (λ (x : ℕ). Upholds x (grown maximum c w log) (apply_change m live maximum participant c w))
        same (by_call c ok)
    where
      by_call :
          (c : ItineraryChange)
          → IsSendable c
          → Upholds
              ((w.schedule_version + 1) % word)
              (grown maximum c w log)
              (apply_change m live maximum participant c w)
      by_call (set plan its base) ok = set-Upholds p w log fits low follows u plan base its ok.0
      by_call (extend its) ok = extend-Upholds p w log fits low follows u its ok
      by_call (delay d) ok = delay-Upholds p w log fits low follows u d
      by_call clear ok = clear-Upholds p w log fits low follows u
