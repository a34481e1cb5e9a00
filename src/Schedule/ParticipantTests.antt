-- ===== src/Schedule/ParticipantTests.antt =====
-- Concrete runs of a schedule participant, and each theorem about it at an input where its hypotheses
-- hold.
use rmf_traffic.Base.{ℕ, ◌+◌, ◌-◌, ◌≡◌, refl, false, Option, some, List, [], ◌∷◌, arith}
use rmf_traffic.Base.Modular.{modular, word}
use rmf_traffic.Base.Int.{pos}
use rmf_traffic.Route.{Route, Waypoint}
use rmf_traffic.Schedule.Tracker.{Range}
use rmf_traffic.Schedule.Progress.{no_progress}
use rmf_traffic.Schedule.Participant.{
  Participant, Call, call_set, call_delay, call_clear, answer_all, retransmit, correct_id,
  write_set, write_delay,
}
use rmf_traffic.Schedule.Participant.Resent.{Resends, retransmit-Resends, correct_id_silent}

abbrev waypoint : ℕ → Waypoint
waypoint t = record { time = pos t; motion = 0 }

abbrev trip : ℕ → Route
trip t = record { map_name = 1; trajectory = waypoint t ∷ waypoint (t + 10) ∷ [] }

-- A participant that has just registered
abbrev registered : Participant
registered = record {
  id = 4;
  version = 0;
  current_plan_id = word - 1;
  next_storage_base = 0;
  current_itinerary = [];
  change_history = [];
  cumulative_delay = pos 0;
  progress = no_progress;
  buffered_progress = [];
  written = [];
}

abbrev calls : List Call
calls = call_set 3 (trip 0 ∷ []) ∷ call_delay (pos 5) ∷ call_clear ∷ call_clear ∷ []

-- The second clear makes no call.
version_run : (answer_all modular calls registered).version ≡ 3
unfolding answer_all
version_run = refl

-- After a set and a delay, of which the requester lacks the set
abbrev sender : Participant
sender = record registered {
  version = 2;
  current_plan_id = 3;
  next_storage_base = 1;
  current_itinerary = trip 5 ∷ [];
  cumulative_delay = pos 5;
  change_history = (1, write_set 4 3 (trip 0 ∷ []) 0 1) ∷ (2, write_delay 4 (pos 5) 2) ∷ [];
}

abbrev lacking : List Range
lacking = record { lower = 1; upper = 1 } ∷ []

retransmit-Resends_example : Resends lacking 2 sender (retransmit modular false lacking 2 0 sender)
retransmit-Resends_example =
    retransmit-Resends modular false lacking 2 0 sender (omega arith) (1, (refl, (refl, refl)))
      (omega arith) ((omega arith, omega arith), tt)

abbrev resent : Option Participant
resent = some (record sender { written = write_set 4 3 (trip 0 ∷ []) 0 1 ∷ [] })

retransmit_run : retransmit modular false lacking 2 0 sender ≡ resent
unfolding retransmit
retransmit_run = refl

correct_id_silent_example : correct_id modular 9 sender ≡ record sender { id = 9 }
correct_id_silent_example = correct_id_silent modular 9 sender (omega arith)
