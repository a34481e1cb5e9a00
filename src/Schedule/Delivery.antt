-- ===== src/Schedule/Delivery.antt =====
-- The life of a change: the guard and the check at the head of Database::set, extend, delay and
-- clear, the ticket that such a call redeems, and InconsistencyTracker::_apply_changes, whose
-- callbacks make the same call again.
pub mod Replay
pub mod Notes
pub mod Order
pub mod Converge
pub mod Simulate
use rmf_traffic.Base.{ℕ, zero, suc, Bool, true, false, none, some, List, [], ◌∷◌, if◌then◌else◌}
use rmf_traffic.Base.Modular.{Modular}
use rmf_traffic.Schedule.Tracker.{Tracker, Changes}
use rmf_traffic.Schedule.Tracker.Check.{check, set_callback}

-- What a participant sends: an itinerary change under its version. A set is nullifying.
pub record Change (P : Type 0) : Type 0 where
  pub version : ℕ
  pub nullifying : Bool
  pub payload : P

-- A participant's entry in the database: its tracker, and the state that changes act on. The
-- callback of a recorded change is the call with the same change.
pub record Replica (P S : Type 0) : Type 0 where
  pub tracker : Tracker (Change P)
  pub state : S

module _ {P S : Type 0} where
  -- `for (const auto& c : _changes) c.second();` An unset callback would throw; none is ever met.
  pub replay :
      (Change P → Replica P S → Replica P S) → Changes (Change P) → Replica P S → Replica P S
  replay call [] d = d
  replay call ((k, some c) ∷ cs) d = replay call cs (call c d)
  replay call ((k, none) ∷ cs) d = replay call cs d

  pub apply_changes : (Change P → Replica P S → Replica P S) → Replica P S → Replica P S
  apply_changes call d =
      let idle = record d { tracker = record (d.tracker) { ready = false } } in
      let done = replay call d.tracker.changes idle in
      record done { tracker = record (done.tracker) { changes = [] } }

  -- Ticket::set, and the ticket's destructor.
  pub redeem : (Change P → Replica P S → Replica P S) → ℕ → Change P → Replica P S → Replica P S
  redeem call v c d =
      let d' = record d {
        tracker = record (d.tracker) { changes = set_callback v c d.tracker.changes };
      } in
      elim d'.tracker.ready [ true ↦ apply_changes call d' | false ↦ d' ]

-- What the database does with a change that passes the check.
module _ {P S : Type 0} (m : Modular) (apply : Change P → S → S) where
  -- The head of the four handlers. The fuel bounds how deep a callback's call may issue a ticket.
  pub deliver : ℕ → Change P → Replica P S → Replica P S
  deliver zero c d = d
  deliver (suc f) c d = elim (m.less_than c.version d.tracker.expected_version) [
    | true ↦ d
    | false ↦
        let (t, ticket) = check m d.tracker c.version c.nullifying in
        elim ticket [
          | none ↦ record { tracker = t; state = apply c d.state }
          | some v ↦ redeem (deliver f) v c (record d { tracker = t })
        ]
  ]

  -- The deliveries in the order in which they arrive.
  pub deliver_all : ℕ → List (Change P) → Replica P S → Replica P S
  deliver_all f [] d = d
  deliver_all f (c ∷ cs) d = deliver_all f cs (deliver f c d)
