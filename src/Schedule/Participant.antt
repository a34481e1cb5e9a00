-- ===== src/Schedule/Participant.antt =====
-- schedule/Participant.cpp: a participant of the schedule and the calls that it makes of the writer. A
-- change is kept in the history as the call that it makes again. The counter that assigns plan ids,
-- which no operation here reads, is left out, and so is the rate limiter of rmf_utils but for its
-- answer. `none` is a walk past the end of the history, whose result the language leaves open.
pub mod History
pub mod Answers
pub mod Resent
use rmf_traffic.Base.{
  ℕ, ◌+◌, ◌%◌, Bool, true, false, Option, none, some, List, [], ◌∷◌, ◌++◌, length, map, is_empty,
  ltb, leb, ◌==◌, ◌||◌, if◌then◌else◌,
}
use rmf_traffic.Base.Modular.{Modular, word}
use rmf_traffic.Base.Int.{ℤ, pos, ◌+ℤ◌, ◌-ℤ◌, leb_ℤ, magnitude}
use rmf_traffic.Route.{Route, delayed}
use rmf_traffic.Schedule.Progress.{Progress, ProgressBuffer, update, buff, pull}
use rmf_traffic.Schedule.Tracker.{Range}
use rmf_traffic.Schedule.Database.{Itinerary, ◌>>=◌}

-- The calls of the writer about an itinerary, each with the participant's id first
pub data WriterCall : Type 0 where
  write_set : ℕ → ℕ → Itinerary → ℕ → ℕ → WriterCall
  write_delay : ℕ → ℤ → ℕ → WriterCall
  write_clear : ℕ → ℕ → WriterCall
  write_reached : ℕ → ℕ → List ℕ → ℕ → WriterCall

-- std::map with ModularLess
abbrev pub ChangeHistory : Type 0
ChangeHistory = List (ℕ × WriterCall)

-- Participant::Implementation::Shared, with the calls that it has made so far
pub record Participant : Type 0 where
  pub id : ℕ
  pub version : ℕ
  pub current_plan_id : ℕ
  pub next_storage_base : ℕ
  pub current_itinerary : Itinerary
  pub change_history : ChangeHistory
  pub cumulative_delay : ℤ
  pub progress : Progress
  pub buffered_progress : ProgressBuffer
  pub written : List WriterCall

-- Participant.hpp
pub data Call : Type 0 where
  call_set : ℕ → Itinerary → Call
  call_delay : ℤ → Call
  call_cumulative_delay : ℕ → ℤ → ℤ → Call
  call_reached : ℕ → ℕ → ℕ → Call
  call_clear : Call

abbrev pub write : WriterCall → Participant → Participant
write c p = record p { written = p.written ++ (c ∷ []) }

abbrev pub all_long : Itinerary → Bool
all_long [] = true
all_long (r ∷ rs) = if ltb (length r.trajectory) 2 then false else all_long rs

-- The trajectories that have waypoints are moved; whether there is none
abbrev pub delay_route : ℤ → Route → Route
delay_route d r = if is_empty r.trajectory then r else delayed d r

abbrev pub no_delays : Itinerary → Bool
no_delays [] = true
no_delays (r ∷ rs) = if is_empty r.trajectory then no_delays rs else false

module _ (m : Modular) where
  unfoldable pub insert_change : ℕ → WriterCall → ChangeHistory → ChangeHistory
  insert_change v c [] = (v, c) ∷ []
  insert_change v c ((w, d) ∷ h) =
      let rest = insert_change v c h in
      if m.less_than w v
      then (w, d) ∷ rest
      else if m.less_than v w
      then (v, c) ∷ (w, d) ∷ h
      else (w, c) ∷ h

  -- `_change_history[itinerary_version] = change; change();` with the next version
  abbrev pub next_version : Participant → ℕ
  next_version p = (p.version + 1) % word

  unfoldable pub issue : WriterCall → Participant → Participant
  unfolding insert_change
  issue c p = write c (record p {
    version = next_version p;
    change_history = insert_change (next_version p) c p.change_history;
  })

  abbrev pub emptied : Participant → Participant
  emptied p = record p { cumulative_delay = pos 0; current_itinerary = [] }

  unfoldable pub clear : Participant → Participant
  unfolding issue
  clear p =
      if is_empty p.current_itinerary
      then record p { cumulative_delay = pos 0 }
      else issue (write_clear p.id (next_version p)) (emptied p)

  -- set below its guards
  abbrev pub begun : ℕ → Itinerary → Participant → Participant
  begun plan itinerary p =
      let (progress, buffer) = pull m plan (length itinerary) p.buffered_progress in
      record p {
        change_history = [];
        cumulative_delay = pos 0;
        current_plan_id = plan;
        next_storage_base = (p.next_storage_base + length itinerary) % word;
        current_itinerary = itinerary;
        progress = progress;
        buffered_progress = buffer;
      }

  unfoldable pub set_routes : ℕ → Itinerary → Participant → Participant
  unfolding issue pull
  set_routes plan itinerary p =
      let b = begun plan itinerary p in
      let p' = issue (write_set p.id plan itinerary p.next_storage_base (next_version p)) b in
      if ltb 0 b.progress.version
      then write (write_reached p.id plan b.progress.reached_checkpoints b.progress.version) p'
      else p'

  -- set, and what it returns
  unfoldable pub set : ℕ → Itinerary → Participant → Participant × Bool
  unfolding clear set_routes
  set plan itinerary p =
      if m.less_than_or_equal plan p.current_plan_id
      then (p, false)
      else if all_long itinerary
      then if is_empty itinerary then (clear p, true) else (set_routes plan itinerary p, true)
      else (p, false)

  abbrev pub moved : ℤ → ℤ → Participant → Participant
  moved d total p = record p {
    current_itinerary = map (delay_route d) p.current_itinerary;
    cumulative_delay = total;
  }

  unfoldable pub delay : ℤ → Participant → Participant
  unfolding issue
  delay d p =
      if no_delays p.current_itinerary
      then p
      else issue (write_delay p.id d (next_version p)) (moved d (p.cumulative_delay +ℤ d) p)

  -- cumulative_delay with a new delay: the change is ignored within the tolerance.
  unfoldable pub cumulative_delay : ℕ → ℤ → ℤ → Participant → Participant × Bool
  unfolding issue
  cumulative_delay plan new_delay tolerance p =
      let d = new_delay -ℤ p.cumulative_delay in
      if plan == p.current_plan_id
      then if leb_ℤ (magnitude d) (magnitude tolerance)
        then (p, true)
        else if no_delays p.current_itinerary
        then (p, true)
        else (issue (write_delay p.id d (next_version p)) (moved d new_delay p), true)
      else (p, false)

  -- The writer is told where the progress has changed.
  unfoldable pub reported : ℕ → Participant → Progress × Bool → Participant
  reported plan p (progress, true) =
      write (write_reached p.id plan progress.reached_checkpoints progress.version)
        (record p { progress = progress })
  reported plan p (progress, false) = record p { progress = progress }

  unfoldable pub reached : ℕ → ℕ → ℕ → Participant → Participant
  unfolding update buff reported
  reached plan route checkpoint p =
      if plan == p.current_plan_id
      then reported plan p (update route checkpoint none p.progress)
      else if m.less_than plan p.current_plan_id
      then p
      else record p { buffered_progress = buff plan route checkpoint none p.buffered_progress }

  -- The calls on a participant
  unfoldable pub answer : Call → Participant → Participant
  unfolding set delay cumulative_delay reached clear
  answer (call_set plan itinerary) p = (set plan itinerary p).0
  answer (call_delay d) p = delay d p
  answer (call_cumulative_delay plan d tolerance) p = (cumulative_delay plan d tolerance p).0
  answer (call_reached plan route checkpoint) p = reached plan route checkpoint p
  answer call_clear p = clear p

  unfoldable pub correct_id : ℕ → Participant → Participant
  unfolding set
  correct_id new_id p = (set p.current_plan_id p.current_itinerary (record p { id = new_id })).0

  -- lower_bound and upper_bound of the history
  unfoldable pub from_lower : ℕ → ChangeHistory → ChangeHistory
  from_lower v [] = []
  from_lower v ((w, c) ∷ h) = if m.less_than w v then from_lower v h else (w, c) ∷ h

  unfoldable pub from_upper : ℕ → ChangeHistory → ChangeHistory
  from_upper v [] = []
  from_upper v ((w, c) ∷ h) = if m.less_than v w then (w, c) ∷ h else from_upper v h

  abbrev pub finds : ℕ → ChangeHistory → Bool
  finds v [] = false
  finds v ((w, c) ∷ h) =
      if m.less_than w v then finds v h else if m.less_than v w then false else true

  -- The calls up to `it->first <= end_it->first`, which the loop ends before
  unfoldable pub resend_through : ℕ → ChangeHistory → Option (List WriterCall)
  resend_through upper [] = none
  resend_through upper ((w, c) ∷ h) =
      let rest = resend_through upper h in
      if leb w upper then elim rest [ none ↦ none | some cs ↦ some (c ∷ cs) ] else some []

  abbrev pub joined : Option (List WriterCall) → Option (List WriterCall) → Option (List WriterCall)
  joined none later = none
  joined (some now) none = none
  joined (some now) (some later) = some (now ++ later)

  unfoldable pub resend_ranges : List Range → ChangeHistory → Option (List WriterCall)
  unfolding from_lower resend_through
  resend_ranges [] h = some []
  resend_ranges (r ∷ rs) h =
      let rest = resend_ranges rs h in
      if finds r.upper h then joined (resend_through r.upper (from_lower r.lower h)) rest else rest

  abbrev pub predates : ℕ → ChangeHistory → Bool
  predates last_known [] = false
  predates last_known ((w, c) ∷ h) = m.less_than last_known w

  -- retransmit where the participant's version is not behind
  unfoldable pub resend : List Range → ℕ → ℕ → Participant → Option Participant
  unfolding from_upper resend_ranges
  resend ranges last_known last_progress p = do
    again ← resend_ranges ranges p.change_history
    let tail = map (λ (e : ℕ × WriterCall). e.1) (from_upper last_known p.change_history)
    let p' = record p { written = p.written ++ (again ++ tail) }
    some (
        if ltb last_progress p.progress.version || predates last_known p.change_history
        then write
            (write_reached p.id p.current_plan_id p.progress.reached_checkpoints p.progress.version)
            p'
        else p')

  -- retransmit, with whether the limit of version mismatches is reached
  unfoldable pub retransmit : Bool → List Range → ℕ → ℕ → Participant → Option Participant
  unfolding set resend
  retransmit limited ranges last_known last_progress p =
      if m.less_than p.version last_known
      then some (
          if limited
          then p
          else (set p.current_plan_id p.current_itinerary
              (record p { version = (last_known + 1) % word })).0)
      else resend ranges last_known last_progress p

  unfoldable pub answer_all : List Call → Participant → Participant
  unfolding answer
  answer_all [] p = p
  answer_all (c ∷ cs) p = answer_all cs (answer c p)
