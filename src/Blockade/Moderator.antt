-- ===== src/Blockade/Moderator.antt =====
-- blockade/Moderator.hpp and .cpp: the state of the moderator, and the queue of participants that
-- are ready to move on. Logging is left out.
pub mod Setting
pub mod Calls
pub mod Reserve
pub mod Queue
pub mod Grant
pub mod Keeps
use rmf_traffic.Base.{
  ℕ, zero, suc, ◌+◌, ◌-◌, ◌*◌, Bool, true, false, Option, none, some, List, [], ◌∷◌, ◌++◌, length,
  ltb, ◌==◌, if◌then◌else◌,
}
use rmf_traffic.Base.Assoc.{Assoc, lookup, insert, lookup_or}
use rmf_traffic.Blockade.Range.{ReservedRange, State}
use rmf_traffic.Blockade.Constraint.{Constraint, always_valid, evaluate}
use rmf_traffic.Blockade.Conflicts.{
  IndexToConstraint, PeerToPeerBlockers, PeerToPeerAlignment, FinalConstraints,
}

-- Writer::Checkpoint and Writer::Reservation, over the types of points and of lengths.
pub record Checkpoint (Point : Type 0) : Type 0 where
  pub position : Point
  pub map_name : ℕ
  pub can_hold : Bool

pub record Reservation (Point Real : Type 0) : Type 0 where
  pub path : List (Checkpoint Point)
  pub radius : Real

pub record ReservationInfo (Point Real : Type 0) : Type 0 where
  pub id : ℕ
  pub reservation : Reservation Point Real

pub record ReadyInfo : Type 0 where
  pub participant_id : ℕ
  pub reservation_id : ℕ
  pub checkpoint : ℕ

-- Status of Status.hpp
pub record Status : Type 0 where
  pub reservation : ℕ
  pub last_ready : Option ℕ
  pub last_reached : ℕ
  pub critical_error : Bool

pub record Assignments : Type 0 where
  pub version : ℕ
  pub ranges : State

pub record Moderator (Point Real : Type 0) : Type 0 where
  pub min_conflict_angle : Real
  pub ready_queue : List ReadyInfo
  pub last_known_reservation : Assoc (ReservationInfo Point Real)
  pub assignments : Assignments
  pub statuses : Assoc Status
  pub peer_blockers : PeerToPeerBlockers
  pub peer_alignment : PeerToPeerAlignment
  pub final_constraints : FinalConstraints

pub data ReadyStatus : Type 0 where
  skip incomplete finished : ReadyStatus

-- A call returns, or throws; `out_of_fuel` is the model's own, and is shown not to come up.
pub data Outcome : Type 0 where
  returned thrown out_of_fuel : Outcome

-- `Assignments::Implementation::modify(assignments)`, and a new range for a participant
unfoldable pub assign : ℕ → ReservedRange → Assignments → Assignments
assign p r a = record { version = a.version + 1; ranges = insert p r a.ranges }

-- The loop over the checkpoints c, c + 1, … of a range: whether each constraint on one holds.
-- none is an exception of evaluate.
pub acceptable : ℕ → ℕ → IndexToConstraint → State → Option Bool
acceptable zero c constraints s = some true
acceptable (suc n) c constraints s =
    let rest = acceptable n (suc c) constraints s in
    elim (lookup c constraints) [
      | none ↦ rest
      | some k ↦ elim (evaluate k s) [ none ↦ none | some false ↦ some false | some true ↦ rest ]
    ]

-- Whether the participant may have the range up to check_end.
abbrev pub acceptable_end : ℕ → ReservedRange → ℕ → IndexToConstraint → State → Option Bool
acceptable_end p r check_end constraints s =
    acceptable (check_end - r.begin) r.begin constraints (insert p (record r { end = check_end }) s)

-- The tries from check_end down, n of them: the first end that is acceptable, if there is one.
pub find_end : ℕ → ℕ → ℕ → ReservedRange → IndexToConstraint → State → Option (Option ℕ)
unfolding acceptable
find_end zero check_end p r constraints s = some none
find_end (suc n) check_end p r constraints s =
    let rest = find_end n (check_end - 1) p r constraints s in
    elim (acceptable_end p r check_end constraints s) [
      | none ↦ none
      | some true ↦ some (some check_end)
      | some false ↦ rest
    ]

-- How far an entry is from its goal, plus one.
pub distance : State → ReadyInfo → ℕ
distance s x = elim (lookup x.participant_id s) [
  | none ↦ 1
  | some r ↦ suc (x.checkpoint + 1 - r.end)
]

pub total_distance : State → List ReadyInfo → ℕ
unfolding distance
total_distance s [] = 0
total_distance s (x ∷ xs) = distance s x + total_distance s xs

-- Each entry that is finished, or that moves on, brings the queue nearer to its goals; between
-- two of these the loop passes over each entry at most once.
pub enough : State → List ReadyInfo → ℕ
unfolding total_distance
enough s queue = suc (total_distance s queue * suc (length queue) + length queue)

module _ {Point Real : Type 0} where
  -- The part of check_reservation where the participant has constraints.
  pub reserve :
      ReadyInfo
      → ReservedRange
      → IndexToConstraint
      → Moderator Point Real
      → Option (Moderator Point Real × ReadyStatus)
  unfolding find_end assign
  reserve check r constraints m =
      let goal = check.checkpoint + 1 in
      elim (find_end (goal - r.end) goal check.participant_id r constraints m.assignments.ranges) [
        | none ↦ none
        | some none ↦ some (m, skip)
        | some (some e) ↦ some (
          record m {
            assignments = assign check.participant_id (record r { end = e }) m.assignments;
          },
          (if e == goal then finished else incomplete),
        )
      ]

  -- The part of check_reservation after the two tests of the reservation; r is state.at(…).
  pub check_range :
      ReadyInfo → ReservedRange → Moderator Point Real → Option (Moderator Point Real × ReadyStatus)
  unfolding reserve
  check_range check r m =
      if ltb check.checkpoint r.end
      then some (m, finished)
      else elim (lookup check.participant_id m.final_constraints.should_go) [
        | none ↦ some (
          record m {
            assignments =
                assign check.participant_id (record r { end = check.checkpoint + 1 }) m.assignments;
          },
          finished,
        )
        | some constraints ↦ reserve check r constraints m
      ]

  -- none is an exception: at() of a participant with no range, or one of evaluate.
  unfoldable pub check_reservation :
      ReadyInfo → Moderator Point Real → Option (Moderator Point Real × ReadyStatus)
  unfolding check_range
  check_reservation check m = elim (lookup check.participant_id m.last_known_reservation) [
    | none ↦ some (m, finished)
    | some info ↦
        if info.id == check.reservation_id
        then elim (lookup check.participant_id m.assignments.ranges) [
          | none ↦ none
          | some r ↦ check_range check r m
        ]
        else some (m, finished)
  ]

  -- The loop of process_ready_queue: the queue is seen ++ rest, and next is the head of rest.
  pub process :
      ℕ → List ReadyInfo → List ReadyInfo → Moderator Point Real → Moderator Point Real × Outcome
  unfolding check_reservation
  process zero seen rest m = (record m { ready_queue = seen ++ rest }, out_of_fuel)
  process (suc f) seen [] m = (record m { ready_queue = seen ++ [] }, returned)
  process (suc f) seen (x ∷ rest) m = elim (check_reservation x m) [
    | none ↦ (record m { ready_queue = seen ++ x ∷ rest }, thrown)
    | some (m', finished) ↦ process f [] (seen ++ rest) m'
    | some (m', incomplete) ↦ process f [] (seen ++ x ∷ rest) m'
    | some (m', skip) ↦ process f (seen ++ x ∷ []) rest m'
  ]

  pub process_ready_queue : Moderator Point Real → Moderator Point Real × Outcome
  unfolding process enough
  process_ready_queue m = process (enough m.assignments.ranges m.ready_queue) [] m.ready_queue m

-- A moderator with no participants
unfoldable pub init : {Point Real : Type 0} → Real → Moderator Point Real
init angle = record {
  min_conflict_angle = angle;
  ready_queue = [];
  last_known_reservation = [];
  assignments = record { version = 0; ranges = [] };
  statuses = [];
  peer_blockers = [];
  peer_alignment = [];
  final_constraints = record { should_go = []; gridlock = always_valid };
}
