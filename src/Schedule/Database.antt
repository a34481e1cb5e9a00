-- ===== src/Schedule/Database.antt =====
-- schedule/Database.cpp: what the database stores of a participant, and the functions that change
-- it. `none` is an exception: RouteStorageException, or the one of Timeline::insert.
pub mod Stored
pub mod Kept
pub mod Delays
pub mod Calls
pub mod Serves
pub mod Plans
pub mod Delivered
use rmf_traffic.Base.{
  ℕ, zero, suc, ◌+◌, ◌%◌, ◌-◌, Bool, true, false, Option, none, some, List, [], ◌∷◌, ◌++◌, length,
  ltb, if◌then◌else◌, is_empty,
}
use rmf_traffic.Base.Modular.{word}
use rmf_traffic.Base.Int.{ℤ, pos, ◌+ℤ◌, ltb_ℤ}
use rmf_traffic.Base.Assoc.{Assoc, lookup, insert}
use rmf_traffic.Route.{Route, delayed}
use rmf_traffic.Schedule.Progress.{Progress, ProgressBuffer, no_progress}
use rmf_traffic.Schedule.Entry.{
  ParticipantDescription, BaseRouteEntry, RouteEntry, inserted, changed, base, route_of,
}

abbrev pub Itinerary : Type 0
Itinerary = List Route

-- std::unordered_map<RouteId, RouteStorage>; the handle that takes an entry out of the timeline when
-- it is destroyed has no part of its own.
abbrev pub ParticipantStorage : Type 0
ParticipantStorage = Assoc RouteEntry

-- ParticipantState, but for its inconsistency tracker
pub record ParticipantState : Type 0 where
  pub active_routes : List ℕ
  pub cumulative_delay : ℤ
  pub storage : ParticipantStorage
  pub description : ParticipantDescription
  pub initial_schedule_version : ℕ
  pub last_updated : ℕ
  pub next_storage_id : ℕ
  pub latest_plan_id : ℕ
  pub progress : Progress
  pub schedule_version_of_progress : Option ℕ
  pub buffered_progress : ProgressBuffer

-- The state that register_participant_impl inserts; the id of the plan is the highest number.
abbrev pub registered_state : ParticipantDescription → ℕ → ParticipantState
registered_state description version = record {
  active_routes = [];
  cumulative_delay = pos 0;
  storage = [];
  description = description;
  initial_schedule_version = version;
  last_updated = version;
  next_storage_id = 0;
  latest_plan_id = word - 1;
  progress = no_progress;
  schedule_version_of_progress = none;
  buffered_progress = [];
}

infixl 5 ◌>>=◌
abbrev pub ◌>>=◌ {ℓ κ} : {A : Type ℓ} {B : Type κ} → Option A → (A → Option B) → Option B
none >>= f = none
some a >>= f = f a

-- A new entry for each active route, made from the one that is there
unfoldable pub replace_entries :
    (ℕ → RouteEntry → RouteEntry) → List ℕ → ParticipantStorage → Option ParticipantStorage
replace_entries f [] storage = some storage
replace_entries f (id ∷ ids) storage = do
  e ← lookup id storage
  replace_entries f ids (insert id (f id e) storage)

-- `*route_entry->route` of the active routes, each delayed unless its trajectory is empty
unfoldable pub refresh_itinerary : ℤ → List ℕ → ParticipantStorage → Option Itinerary
refresh_itinerary delay [] storage = some []
refresh_itinerary delay (id ∷ ids) storage = do
  e ← lookup id storage
  r ← route_of e
  rs ← refresh_itinerary delay ids storage
  some ((if is_empty r.trajectory then r else delayed delay r) ∷ rs)

-- The schedule's version, and the participant that a call is about
module _ (schedule_version participant : ℕ) where
  abbrev pub new_entry : ParticipantState → ℕ → Route → RouteEntry
  new_entry state route_id route = inserted (record {
    route = some route;
    participant = participant;
    plan_id = state.latest_plan_id;
    route_id = route_id;
    storage_id = state.next_storage_id;
    description = state.description;
    schedule_version = schedule_version;
  })

  abbrev pub with_route : ParticipantState → ℕ → Route → ParticipantState
  with_route state route_id route = record state {
    next_storage_id = (state.next_storage_id + 1) % word;
    active_routes = state.active_routes ++ (state.next_storage_id ∷ []);
    storage = insert state.next_storage_id (new_entry state route_id route) state.storage;
  }

  -- The loop of insert_items, from the route id on. Timeline::insert refuses a trajectory with less
  -- than two waypoints.
  unfoldable pub insert_from : ℕ → Itinerary → ParticipantState → Option ParticipantState
  insert_from route_id [] state = some state
  insert_from route_id (r ∷ rs) state =
      let rest = insert_from (suc route_id) rs (with_route state route_id r) in
      if ltb (length r.trajectory) 2 then none else rest

  unfoldable pub insert_items : Itinerary → ParticipantState → Option ParticipantState
  unfolding insert_from
  insert_items itinerary state = insert_from (length state.active_routes) itinerary state

  abbrev pub cleared_entry : ParticipantState → ℕ → RouteEntry → RouteEntry
  cleared_entry state storage_id e =
      changed
        (record (base e) {
          route = none;
          participant = participant;
          storage_id = storage_id;
          description = state.description;
          schedule_version = schedule_version;
        })
        none e

  unfoldable pub clear : Bool → ParticipantState → Option ParticipantState
  unfolding replace_entries
  clear clear_progress state = do
    storage ← replace_entries (cleared_entry state) state.active_routes state.storage
    some (record state {
      storage = storage;
      cumulative_delay = pos 0;
      active_routes = [];
      progress =
          if clear_progress
          then record (state.progress) { reached_checkpoints = [] }
          else state.progress;
    })

  -- The entry of a route after a delay; `continue` leaves an empty one.
  abbrev pub delayed_entry : ParticipantState → ℤ → ℕ → Route → RouteEntry → RouteEntry
  delayed_entry state delay storage_id route e =
      if is_empty route.trajectory
      then e
      else changed
          (record (base e) {
            route = some (delayed delay route);
            participant = participant;
            plan_id = state.latest_plan_id;
            storage_id = storage_id;
            description = state.description;
            schedule_version = schedule_version;
          })
          (some delay) e

  unfoldable pub delay_entries :
      ParticipantState → ℤ → List ℕ → ParticipantStorage → Option ParticipantStorage
  delay_entries state delay [] storage = some storage
  delay_entries state delay (id ∷ ids) storage = do
    e ← lookup id storage
    r ← route_of e
    delay_entries state delay ids (insert id (delayed_entry state delay id r e) storage)

  unfoldable pub apply_delay : ℤ → ℤ → ParticipantState → Option ParticipantState
  unfolding clear insert_items refresh_itinerary delay_entries
  apply_delay maximum_cumulative_delay delay state =
      let total = state.cumulative_delay +ℤ delay in
      elim (ltb_ℤ maximum_cumulative_delay total) [
        | true ↦ do
          itinerary ← refresh_itinerary delay state.active_routes state.storage
          state' ← clear false state
          insert_items itinerary state'
        | false ↦ do
          storage ← delay_entries state delay state.active_routes state.storage
          some (record state { cumulative_delay = total; storage = storage })
      ]

  abbrev pub described_entry : ParticipantState → ℕ → RouteEntry → RouteEntry
  described_entry state storage_id e =
      changed
        (record (base e) {
          participant = participant;
          plan_id = state.latest_plan_id;
          storage_id = storage_id;
          description = state.description;
          schedule_version = schedule_version;
        })
        none e

  unfoldable pub apply_description_update : ParticipantState → Option ParticipantState
  unfolding replace_entries
  apply_description_update state = do
    storage ← replace_entries (described_entry state) state.active_routes state.storage
    some (record state { storage = storage })

-- The routes of an ItineraryView are pointers, which a cleared route has null.
unfoldable pub routes_at : List ℕ → ParticipantStorage → Option (List (Option Route))
routes_at [] storage = some []
routes_at (id ∷ ids) storage = do
  e ← lookup id storage
  rs ← routes_at ids storage
  some (route_of e ∷ rs)

unfoldable pub get_itinerary : ParticipantState → Option (List (Option Route))
unfolding routes_at
get_itinerary state = routes_at state.active_routes state.storage
