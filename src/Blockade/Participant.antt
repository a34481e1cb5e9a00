-- ===== src/Blockade/Participant.antt =====
-- blockade/Participant.cpp and internal_Participant.hpp: what a participant keeps, and the calls of
-- the writer that it makes. A call gives the participant that it leaves, the calls of the writer in
-- their order, and whether it throws: `value()` of an optional that is empty does.
pub mod Agreement
pub mod Told
use rmf_traffic.Base.{
  ℕ, ◌+◌, ◌-◌, ◌%◌, Bool, true, false, not, Option, none, some, List, [], ◌∷◌, ◌++◌, length, ltb,
  leb, ◌==◌, if◌then◌else◌,
}
use rmf_traffic.Base.Modular.{word}
use rmf_traffic.Blockade.Moderator.{
  Checkpoint, Reservation, Status, Outcome, returned, thrown, out_of_fuel,
}
use rmf_traffic.Blockade.Moderator.Calls.{
  Call, setting, readying, releasing, reaching, cancelling, cancelling_all,
}

pub record Participant (Point Real : Type 0) : Type 0 where
  pub id : ℕ
  pub reservation_id : Option ℕ
  pub current_reservation : Reservation Point Real
  pub last_ready : Option ℕ
  pub last_reached : ℕ

pub record Sent (Point Real : Type 0) : Type 0 where
  pub participant : Participant Point Real
  pub calls : List (Call Point Real)
  pub outcome : Outcome

-- Equality of two optionals, and of a value and an optional
abbrev pub same_option : Option ℕ → Option ℕ → Bool
same_option none none = true
same_option none (some b) = false
same_option (some a) none = false
same_option (some a) (some b) = a == b

-- The last checkpoint that ready accepts; an index of a path that is too short wraps.
last_departure : ℕ → ℕ → ℕ
last_departure size c = if leb ((size + word - 1) % word) c then (size + word - 2) % word else c

module _ {Point Real : Type 0} where
  abbrev pub silent : Participant Point Real → Sent Point Real
  silent p = record { participant = p; calls = []; outcome = returned }

  -- A call of the writer that needs the reservation's id
  abbrev pub sending : Participant Point Real → (ℕ → Call Point Real) → Sent Point Real
  sending p call = elim p.reservation_id [
    | none ↦ record { participant = p; calls = []; outcome = thrown }
    | some r ↦ record { participant = p; calls = call r ∷ []; outcome = returned }
  ]

  send_reservation : Participant Point Real → Sent Point Real
  send_reservation p = sending p (λ r. setting p.id r p.current_reservation)

  pub send_ready : Participant Point Real → Sent Point Real
  send_ready p = elim p.last_ready [
    | none ↦ record { participant = p; calls = []; outcome = thrown }
    | some c ↦ sending p (λ r. readying p.id r c)
  ]

  pub send_release : ℕ → Participant Point Real → Sent Point Real
  send_release c p = sending p (λ r. releasing p.id r c)

  pub send_reached : Participant Point Real → Sent Point Real
  send_reached p = sending p (λ r. reaching p.id r p.last_reached)

  -- One call after another, where the first does not throw
  abbrev pub then_send :
      Sent Point Real → (Participant Point Real → Sent Point Real) → Sent Point Real
  then_send s next = elim s.outcome [
    | returned ↦
        let t = next s.participant in
        record { participant = t.participant; calls = s.calls ++ t.calls; outcome = t.outcome }
    | thrown ↦ s
    | out_of_fuel ↦ s
  ]

  -- The part of check(status) for the last checkpoint that is ready
  pub check_ready : Status → Participant Point Real → Sent Point Real
  unfolding send_ready send_release
  check_ready status p =
      if same_option status.last_ready p.last_ready then silent p else elim p.last_ready [
        | none ↦ send_release 0 p
        | some c ↦ elim status.last_ready [
          | none ↦ send_ready p
          | some d ↦ if ltb c d then send_release (c + 1) p else send_ready p
        ]
      ]

  pub check_reached : Status → Participant Point Real → Sent Point Real
  unfolding send_reached
  check_reached status p =
      if status.last_reached == p.last_reached then silent p else send_reached p

  -- check(status)
  unfoldable pub check : Status → Participant Point Real → Sent Point Real
  unfolding send_reservation check_ready check_reached
  check status p =
      if same_option (some status.reservation) p.reservation_id
      then then_send (check_ready status p) (check_reached status)
      else elim p.reservation_id [
        | none ↦ record {
          participant = p;
          calls = cancelling p.id status.reservation ∷ [];
          outcome = returned;
        }
        | some r ↦
            then_send (send_reservation p)
              λ q. elim q.last_ready [ none ↦ silent q | some c ↦ send_ready q ]
      ]

  -- check(), where the moderator has no status of the participant
  check_missing : Participant Point Real → Sent Point Real
  unfolding send_reservation
  check_missing p = elim p.reservation_id [ none ↦ silent p | some r ↦ send_reservation p ]

  unfoldable pub set : List (Checkpoint Point) → Participant Point Real → Sent Point Real
  unfolding send_reservation
  set path p = send_reservation (record p {
    current_reservation = record p.current_reservation { path = path };
    reservation_id = elim p.reservation_id [ none ↦ some 1 | some r ↦ some ((r + 1) % word) ];
    last_ready = none;
    last_reached = 0;
  })

  unfoldable pub ready : ℕ → Participant Point Real → Sent Point Real
  unfolding send_ready last_departure
  ready c p =
      let d = last_departure (length p.current_reservation.path) c in
      let told = send_ready (record p { last_ready = some d }) in
      elim p.last_ready [ none ↦ told | some e ↦ if leb d e then silent p else told ]

  unfoldable pub release : ℕ → Participant Point Real → Sent Point Real
  unfolding send_release
  release c p = elim p.last_ready [
    | none ↦ silent p
    | some d ↦
        if ltb d c
        then silent p
        else send_release c (record p { last_ready = (if ltb 0 c then some (c - 1) else none) })
  ]

  unfoldable pub reached : ℕ → Participant Point Real → Sent Point Real
  unfolding send_reached
  reached c p =
      if leb c p.last_reached then silent p else send_reached (record p { last_reached = c })

  unfoldable pub cancel : Participant Point Real → Sent Point Real
  cancel p = elim p.reservation_id [
    | none ↦ silent p
    | some r ↦ record {
      participant = record p { reservation_id = none };
      calls = cancelling p.id r ∷ [];
      outcome = returned;
    }
  ]

  -- The destructor
  leave : Participant Point Real → List (Call Point Real)
  leave p = elim p.reservation_id [ none ↦ [] | some r ↦ cancelling_all p.id ∷ [] ]
