-- ===== src/Blockade/Moderator/Calls.antt =====
-- blockade/Moderator.hpp and .cpp: ready, release, reached and cancel. A call gives the
-- moderator that it leaves and how it ends. The conflict brackets of two paths, compute_brackets of
-- geometry.cpp, are computed in floating point and are a parameter; so are the modular comparisons.
pub mod Consistent
pub mod Preserved
pub mod Effects
pub mod Respects
pub mod Entries
use rmf_traffic.Base.{
  ℕ, suc, ◌+◌, ◌-◌, ◌%◌, Bool, true, false, ◌&&◌, not, Option, none, some, List, [], ◌∷◌, ◌++◌,
  length, is_empty, ltb, leb, ◌==◌, if◌then◌else◌, min,
}
use rmf_traffic.Base.Modular.{Modular, word}
use rmf_traffic.Base.Assoc.{Assoc, lookup, insert, erase, lookup_or, map_values}
use rmf_traffic.Blockade.Range.{ReservedRange, State}
use rmf_traffic.Blockade.Conflicts.{
  IndexToConstraint, Brackets, Alignment, PeerToPeerBlockers, PeerToPeerAlignment, last_index,
  compute_blockers, compute_alignments,
}
use rmf_traffic.Blockade.Conflicts.Final.{compute_final_ShouldGo_constraints}
use rmf_traffic.Blockade.Moderator.{
  Checkpoint, Reservation, ReservationInfo, ReadyInfo, Status, Assignments, Moderator, Outcome,
  returned, thrown, assign, process_ready_queue,
}
use rmf_traffic.Blockade.Moderator.Setting.{set}

-- `checkpoint <= optional`
abbrev pub is_at_most : ℕ → Option ℕ → Bool
is_at_most c none = false
is_at_most c (some d) = leb c d

-- `Assignments::Implementation::modify`, where nothing is changed after it
abbrev pub modify : Assignments → Assignments
modify a = record a { version = a.version + 1 }

-- The loops of release over the queue: an entry that is beyond the released checkpoint comes
-- back to it, …
pub lower_entries : ℕ → ℕ → ℕ → List ReadyInfo → List ReadyInfo
lower_entries p id checkpoint [] = []
lower_entries p id checkpoint (x ∷ xs) =
    (if (p == x.participant_id) && (id == x.reservation_id) && leb checkpoint x.checkpoint
      then record x { checkpoint = checkpoint }
      else x)
    ∷ lower_entries p id checkpoint xs

-- … and a participant with nothing ready has no entry.
pub erase_entries : ℕ → List ReadyInfo → List ReadyInfo
erase_entries p [] = []
erase_entries p (x ∷ xs) =
    if p == x.participant_id then erase_entries p xs else x ∷ erase_entries p xs

-- `if (checkpoint >= path.size()) checkpoint = path.size()-1`, which wraps on an empty path
pub clamp : ℕ → ℕ → ℕ
clamp size checkpoint = if leb size checkpoint then last_index size else checkpoint

module _ {Point Real : Type 0} where
  -- The guards that ready and release share: the reservation, if the call is about it and the
  -- checkpoint is not its last.
  unfoldable pub current : ℕ → ℕ → ℕ → Moderator Point Real → Option (ReservationInfo Point Real)
  current p id checkpoint m = elim (lookup p m.last_known_reservation) [
    | none ↦ none
    | some info ↦
        let size = length info.reservation.path in
        if (info.id == id) && not (size == 0) && ltb checkpoint (size - 1) then some info else none
  ]

  unfoldable pub ready : ℕ → ℕ → ℕ → Moderator Point Real → Moderator Point Real × Outcome
  unfolding current process_ready_queue
  ready p id checkpoint m = elim (current p id checkpoint m) [
    | none ↦ (m, returned)
    | some info ↦ elim (lookup p m.statuses) [
      | none ↦ (m, thrown)
      | some status ↦
          if is_at_most checkpoint status.last_ready
          then (m, returned)
          else process_ready_queue (record m {
            statuses = insert p (record status { last_ready = some checkpoint }) m.statuses;
            ready_queue =
                m.ready_queue
                ++ record { participant_id = p; reservation_id = id; checkpoint = checkpoint } ∷ [];
          })
    ]
  ]

  -- release, at a checkpoint not before the last one reached
  unfoldable pub release_from :
      ℕ → ℕ → ℕ → Status → ReservedRange → Moderator Point Real → Moderator Point Real
  unfolding lower_entries erase_entries assign
  release_from p id checkpoint status range m = record m {
    statuses =
        insert p
          (record status {
            last_ready = (if ltb 0 checkpoint then some (checkpoint - 1) else none);
          })
          m.statuses;
    assignments =
        assign p
          (record range { end = (if ltb checkpoint range.end then checkpoint else range.end) })
          m.assignments;
    ready_queue =
        if ltb 0 checkpoint
        then lower_entries p id checkpoint m.ready_queue
        else erase_entries p m.ready_queue;
  }

  unfoldable pub release : ℕ → ℕ → ℕ → Moderator Point Real → Moderator Point Real × Outcome
  unfolding current release_from process_ready_queue
  release p id checkpoint m = elim (current p id checkpoint m) [
    | none ↦ (m, returned)
    | some info ↦ elim (lookup p m.statuses) [
      | none ↦ (m, thrown)
      | some status ↦
          let from =
            if leb checkpoint status.last_reached then status.last_reached else checkpoint in
          elim (lookup p m.assignments.ranges) [
            | none ↦ (
              record m {
                statuses =
                    insert p
                      (record status {
                        last_ready = (if ltb 0 from then some (from - 1) else none);
                      })
                      m.statuses;
                assignments = modify m.assignments;
              },
              thrown,
            )
            | some range ↦ process_ready_queue (release_from p id from status range m)
          ]
    ]
  ]

  -- reached, at a checkpoint of the path that was not reached before. The first time that it is
  -- beyond the range, it is an exception.
  unfoldable pub reached_at :
      ℕ → ℕ → Status → ReservedRange → Moderator Point Real → Moderator Point Real × Outcome
  unfolding assign process_ready_queue
  reached_at p checkpoint status range m =
      if ltb range.end checkpoint
      then (
        record m {
          statuses = insert p (record status { critical_error = true }) m.statuses;
          assignments = modify m.assignments;
        },
        (if status.critical_error then returned else thrown),
      )
      else process_ready_queue (record m {
        statuses = insert p (record status { last_reached = checkpoint }) m.statuses;
        assignments = assign p (record range { begin = checkpoint }) m.assignments;
      })

  unfoldable pub reached : ℕ → ℕ → ℕ → Moderator Point Real → Moderator Point Real × Outcome
  unfolding reached_at clamp
  reached p id checkpoint m = elim (lookup p m.last_known_reservation) [
    | none ↦ (m, returned)
    | some info ↦
        let at = clamp (length info.reservation.path) checkpoint in
        if not (info.id == id) then (m, returned) else elim (lookup p m.statuses) [
          | none ↦ (m, thrown)
          | some status ↦
              if leb at status.last_reached
              then (m, returned)
              else elim (lookup p m.assignments.ranges) [
                | none ↦ (record m { assignments = modify m.assignments }, thrown)
                | some range ↦ reached_at p at status range m
              ]
        ]
  ]

  -- cancel(participant_id)
  pub cancel_all : ℕ → Moderator Point Real → Moderator Point Real × Outcome
  unfolding compute_final_ShouldGo_constraints process_ready_queue
  cancel_all p m =
      let blockers = map_values (λ q peers. erase p peers) (erase p m.peer_blockers) in
      let alignment = map_values (λ q peers. erase p peers) (erase p m.peer_alignment) in
      process_ready_queue (record m {
        last_known_reservation = erase p m.last_known_reservation;
        statuses = erase p m.statuses;
        peer_blockers = blockers;
        peer_alignment = alignment;
        assignments = record m.assignments {
          version = m.assignments.version + 1;
          ranges = erase p m.assignments.ranges;
        };
        final_constraints = compute_final_ShouldGo_constraints blockers alignment;
      })

  -- cancel(participant_id, reservation_id)
  pub cancel : ℕ → ℕ → Moderator Point Real → Moderator Point Real × Outcome
  unfolding cancel_all
  cancel p id m = elim (lookup p m.last_known_reservation) [
    | none ↦ (m, returned)
    | some info ↦ if ltb id info.id then (m, returned) else cancel_all p m
  ]

-- A call of the moderator
pub data Call (Point Real : Type 0) : Type 0 where
  setting : ℕ → ℕ → Reservation Point Real → Call Point Real
  readying releasing reaching : ℕ → ℕ → ℕ → Call Point Real
  cancelling : ℕ → ℕ → Call Point Real
  cancelling_all : ℕ → Call Point Real

module _ {Point Real : Type 0} (modular : Modular)
    (compute_brackets : List (Checkpoint Point)
      → Real
      → List (Checkpoint Point)
      → Real
      → Real
      → Brackets) where
  unfoldable pub answer : Call Point Real → Moderator Point Real → Moderator Point Real × Outcome
  unfolding set ready release reached cancel cancel_all
  answer (setting p id r) m = set modular compute_brackets p id r m
  answer (readying p id c) m = ready p id c m
  answer (releasing p id c) m = release p id c m
  answer (reaching p id c) m = reached p id c m
  answer (cancelling p id) m = cancel p id m
  answer (cancelling_all p) m = cancel_all p m

  -- A caller goes on after an exception.
  unfoldable pub answer_all : List (Call Point Real) → Moderator Point Real → Moderator Point Real
  unfolding answer
  answer_all [] m = m
  answer_all (c ∷ cs) m = answer_all cs (answer c m).0
