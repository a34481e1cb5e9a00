-- ===== src/Schedule/Database/Delivered.antt =====
-- The four calls of the database from their arrival on: the tracker, the ticket, the replay and what
-- each change does to the stored routes.
use rmf_traffic.Base.{ℕ, suc, ◌-◌, ◌≡◌, Bool, Option, some, List, [], map}
use rmf_traffic.Base.Modular.{Modular, word}
use rmf_traffic.Base.Int.{ℤ}
use rmf_traffic.Route.{Route}
use rmf_traffic.Schedule.Tracker.{Tracker}
use rmf_traffic.Schedule.Dependencies.{TrafficDependencies, Notice}
use rmf_traffic.Schedule.Entry.{ParticipantDescription}
use rmf_traffic.Schedule.Delivery.{Change, Replica}
use rmf_traffic.Schedule.Database.{get_itinerary, registered_state}
use rmf_traffic.Schedule.Database.Calls.{ItineraryChange, change, Workspace}
use rmf_traffic.Schedule.Database.Plans.{Planned, plan_change, IsSendable}

abbrev pub plan_by : Change ItineraryChange → Planned → Planned
plan_by c p = plan_change c.payload p

abbrev pub unplanned : Planned
unplanned = record { itinerary = []; plan_id = word - 1 }

-- The workspace of a participant that has just registered
abbrev pub new_workspace :
    ParticipantDescription → ℕ → TrafficDependencies → List Notice → Workspace
new_workspace description version dependencies told = record {
  state = registered_state description version;
  schedule_version = version;
  dependencies = dependencies;
  told = told;
}

-- What the database has once every change has arrived
abbrev pub ShowsPlan : Planned → ℕ → Replica ItineraryChange (Option Workspace) → Type 0
ShowsPlan p n d =
    (w : Workspace) × (d.state ≡ some w)
    × (get_itinerary w.state ≡ some (map (λ (r : Route). some r) p.itinerary))
    × (w.state.latest_plan_id ≡ p.plan_id)
    × (d.tracker.ranges ≡ [])
    × (d.tracker.expected_version ≡ suc n)

abbrev pub sent_call : (ℕ → ItineraryChange) → ℕ → Change ItineraryChange
sent_call calls v = change v (calls v)

module _ (m : Modular) (live : ℕ → Bool) (maximum : ℤ) (participant : ℕ)
    (calls : ℕ → ItineraryChange) (sendable : (v : ℕ) → IsSendable (calls v)) where
  abbrev MayCall : Change ItineraryChange → Type 0
  MayCall c = IsSendable c.payload
