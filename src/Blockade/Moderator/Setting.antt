-- ===== src/Blockade/Moderator/Setting.antt =====
-- blockade/Moderator.cpp: set. The conflict brackets of two paths, compute_brackets of geometry.cpp, are
-- computed in floating point and are a parameter; so are the modular comparisons.
use rmf_traffic.Base.{ℕ, false, none, some, List, [], ◌∷◌, length, ◌==◌, if◌then◌else◌}
use rmf_traffic.Base.Modular.{Modular}
use rmf_traffic.Base.Assoc.{Assoc, lookup, insert, lookup_or}
use rmf_traffic.Blockade.Conflicts.{
  Brackets, PeerToPeerBlockers, PeerToPeerAlignment, compute_blockers, compute_alignments,
}
use rmf_traffic.Blockade.Conflicts.Final.{compute_final_ShouldGo_constraints}
use rmf_traffic.Blockade.Moderator.{
  Checkpoint, Reservation, ReservationInfo, Moderator, Outcome, returned, assign,
  process_ready_queue,
}

-- The four maps that set updates for another participant, one pair of maps at a time
set_blockers : ℕ → ℕ → ℕ → ℕ → Brackets → PeerToPeerBlockers → PeerToPeerBlockers
unfolding compute_blockers
set_blockers p size other other_size brackets blockers =
    let (on_this, on_other) = compute_blockers brackets.conflicts p size other other_size in
    let with_this = insert p (insert other on_this (lookup_or p [] blockers)) blockers in
    insert other (insert p on_other (lookup_or other [] with_this)) with_this

set_alignment : ℕ → ℕ → Brackets → PeerToPeerAlignment → PeerToPeerAlignment
unfolding compute_alignments
set_alignment p other brackets alignment =
    let (of_this, of_other) = compute_alignments brackets.alignments in
    let with_this = insert p (insert other of_this (lookup_or p [] alignment)) alignment in
    insert other (insert p of_other (lookup_or other [] with_this)) with_this

module _ {Point Real : Type 0} (modular : Modular)
    (compute_brackets : List (Checkpoint Point)
      → Real
      → List (Checkpoint Point)
      → Real
      → Real
      → Brackets) where
  -- The loop of set over the reservations of the others
  set_peers :
      ℕ
      → Reservation Point Real
      → Real
      → Assoc (ReservationInfo Point Real)
      → PeerToPeerBlockers
      → PeerToPeerAlignment
      → PeerToPeerBlockers × PeerToPeerAlignment
  unfolding set_blockers set_alignment
  set_peers p r angle [] blockers alignment = (blockers, alignment)
  set_peers p r angle ((other, info) ∷ more) blockers alignment =
      let o = info.reservation in
      let brackets = compute_brackets r.path r.radius o.path o.radius angle in
      let next : PeerToPeerBlockers × PeerToPeerAlignment =
        if other == p then (blockers, alignment) else (
          set_blockers p (length r.path) other (length o.path) brackets blockers,
          set_alignment p other brackets alignment,
        ) in
      set_peers p r angle more next.0 next.1

  -- set, for a reservation that is new
  unfoldable pub set_new :
      ℕ → ℕ → Reservation Point Real → Moderator Point Real → Moderator Point Real
  unfolding set_peers compute_final_ShouldGo_constraints assign
  set_new p id r m =
      let known = insert p (record { id = id; reservation = r }) m.last_known_reservation in
      let (blockers, alignment) =
        set_peers p r m.min_conflict_angle known (insert p [] m.peer_blockers)
          (insert p [] m.peer_alignment) in
      record m {
        last_known_reservation = known;
        peer_blockers = blockers;
        peer_alignment = alignment;
        final_constraints = compute_final_ShouldGo_constraints blockers alignment;
        assignments = assign p (record { begin = 0; end = 0 }) m.assignments;
        statuses =
            insert p
              (record {
                reservation = id;
                last_ready = none;
                last_reached = 0;
                critical_error = false;
              })
              m.statuses;
      }

  unfoldable pub set :
      ℕ → ℕ → Reservation Point Real → Moderator Point Real → Moderator Point Real × Outcome
  unfolding set_new process_ready_queue
  set p id r m = elim (lookup p m.last_known_reservation) [
    | none ↦ process_ready_queue (set_new p id r m)
    | some info ↦
        if modular.less_than_or_equal id info.id
        then (m, returned)
        else process_ready_queue (set_new p id r m)
  ]
