-- ===== src/Schedule/Database/Calls.antt =====
-- schedule/Database.cpp: what Database::set, extend, delay and clear do with a change that has passed
-- the inconsistency check, and Database::reached.
use rmf_traffic.Base.{
  ℕ, suc, ◌+◌, ◌%◌, Bool, true, false, Option, none, some, List, [], ◌∷◌, ◌++◌, length, ◌==◌,
  if◌then◌else◌, not,
}
use rmf_traffic.Base.Modular.{Modular, word}
use rmf_traffic.Base.Int.{ℤ}
use rmf_traffic.Schedule.Progress.{Progress, ProgressBuffer, resize, update, buff, pull}
use rmf_traffic.Schedule.Dependencies.{
  TrafficDependencies, Notice, reached, deprecate_dependencies_before,
}
use rmf_traffic.Schedule.Delivery.{Change}
use rmf_traffic.Schedule.Database.{
  ParticipantState, Itinerary, insert_items, clear as clear_state, apply_delay, ◌>>=◌,
}

-- The arguments of the four calls
pub data ItineraryChange : Type 0 where
  set : ℕ → Itinerary → ℕ → ItineraryChange
  extend : Itinerary → ItineraryChange
  delay : ℤ → ItineraryChange
  clear : ItineraryChange

-- The call that is made with a version; set checks it as nullifying.
unfoldable pub change : ℕ → ItineraryChange → Change ItineraryChange
change version (set plan itinerary storage_base) = record {
  version = version;
  nullifying = true;
  payload = set plan itinerary storage_base;
}
change version c = record { version = version; nullifying = false; payload = c }

-- What the calls about a participant act on: its state, the version of the schedule, the
-- dependencies on all participants, and what the subscriptions have been told.
pub record Workspace : Type 0 where
  pub state : ParticipantState
  pub schedule_version : ℕ
  pub dependencies : TrafficDependencies
  pub told : List Notice

module _ (m : Modular) (live : ℕ → Bool) (maximum_cumulative_delay : ℤ) (participant : ℕ) where
  abbrev deprecating : ℕ → Workspace → Workspace
  deprecating plan w =
      let (deps, told) = deprecate_dependencies_before live m participant plan w.dependencies in
      record w { dependencies = deps; told = w.told ++ told }

  abbrev reaching : ℕ → List ℕ → Workspace → Workspace
  reaching plan checkpoints w =
      let (deps, told) = reached live participant plan checkpoints w.dependencies in
      record w { dependencies = deps; told = w.told ++ told }

  -- Database::set below its check
  unfoldable pub apply_set : ℕ → Itinerary → ℕ → Workspace → Option Workspace
  unfolding clear_state insert_items pull reached deprecate_dependencies_before
  apply_set plan itinerary storage_base w = do
    let version = (w.schedule_version + 1) % word
    cleared ← clear_state version participant true w.state
    let (progress, buffer) = pull m plan (length itinerary) cleared.buffered_progress
    let reset = record cleared {
      progress = progress;
      buffered_progress = buffer;
      schedule_version_of_progress = some version;
      latest_plan_id = plan;
      next_storage_id = storage_base;
    }
    state ← insert_items version participant itinerary reset
    some (
        reaching plan state.progress.reached_checkpoints
          (deprecating plan (record w { state = state; schedule_version = version })))

  unfoldable pub apply_extend : Itinerary → Workspace → Option Workspace
  unfolding insert_items resize
  apply_extend itinerary w = do
    let version = (w.schedule_version + 1) % word
    state ← insert_items version participant itinerary w.state
    some (record w {
      state = record state {
        progress = resize (length state.active_routes) state.progress;
        schedule_version_of_progress = some version;
      };
      schedule_version = version;
    })

  unfoldable pub apply_delay_call : ℤ → Workspace → Option Workspace
  unfolding apply_delay
  apply_delay_call d w = do
    let version = (w.schedule_version + 1) % word
    state ← apply_delay version participant maximum_cumulative_delay d w.state
    some (record w { state = state; schedule_version = version })

  unfoldable pub apply_clear : Workspace → Option Workspace
  unfolding clear_state deprecate_dependencies_before
  apply_clear w = do
    let version = (w.schedule_version + 1) % word
    state ← clear_state version participant true w.state
    some (
        deprecating ((state.latest_plan_id + 1) % word)
          (record w { state = state; schedule_version = version }))

  unfoldable pub apply_change : ItineraryChange → Workspace → Option Workspace
  unfolding apply_set apply_extend apply_delay_call apply_clear
  apply_change (set plan itinerary storage_base) w = apply_set plan itinerary storage_base w
  apply_change (extend itinerary) w = apply_extend itinerary w
  apply_change (delay d) w = apply_delay_call d w
  apply_change clear w = apply_clear w

  -- The state that the delivery of changes acts on: an exception leaves no state.
  unfoldable pub apply : Change ItineraryChange → Option Workspace → Option Workspace
  unfolding apply_change
  apply c none = none
  apply c (some w) = apply_change c.payload w

  -- The loops of Database::reached over the checkpoints, from a route on
  unfoldable pub buff_from : ℕ → ℕ → List ℕ → ℕ → ProgressBuffer → ProgressBuffer
  unfolding buff
  buff_from plan route [] version buffer = buffer
  buff_from plan route (c ∷ cs) version buffer =
      buff_from plan (suc route) cs version (buff plan route c (some version) buffer)

  unfoldable pub update_from : ℕ → List ℕ → ℕ → Progress → Progress
  unfolding update
  update_from route [] version progress = progress
  update_from route (c ∷ cs) version progress =
      update_from (suc route) cs version (update route c (some version) progress).0

  -- Database::reached
  unfoldable pub reached_call : ℕ → List ℕ → ℕ → Workspace → Workspace
  unfolding buff_from update_from reached
  reached_call plan checkpoints version w =
      if not (plan == w.state.latest_plan_id)
      then if m.less_than plan w.state.latest_plan_id then w else record w {
        state = record (w.state) {
          buffered_progress = buff_from plan 0 checkpoints version w.state.buffered_progress;
        };
      }
      else let schedule_version = (w.schedule_version + 1) % word in
        let progress = update_from 0 checkpoints version w.state.progress in
        reaching plan progress.reached_checkpoints (record w {
          state = record (w.state) {
            progress = progress;
            schedule_version_of_progress = some schedule_version;
          };
          schedule_version = schedule_version;
        })
