-- ===== src/Blockade/Moderator/Calls/Preserved.antt =====
-- The calls of the moderator, and what they do to its maps, call by call.
use rmf_traffic.Base.{
  ℕ, ◌+◌, ◌-◌, ◌≤◌, ◌≡◌, refl, sym, subst, inl, inr, true, false, ◌&&◌, not, none, some, List, [],
  ◌∷◌, ◌++◌, length, ltb, leb, arith, Option-cases, Bool-cases, ◌==◌, if◌then◌else◌,
}
use rmf_traffic.Base.Modular.{Modular}
use rmf_traffic.Base.Assoc.{lookup, insert, erase, map_values}
use rmf_traffic.Blockade.Range.{ReservedRange}
use rmf_traffic.Blockade.Conflicts.{Brackets}
use rmf_traffic.Blockade.Conflicts.Final.{
  compute_final_ShouldGo_constraints, first_order_of, final_order_of,
}
use rmf_traffic.Blockade.Gridlock.{
  compute_gridlock_constraint, gridlocks, search, blockers_of, start_queue, number_of_dependencies,
}
use rmf_traffic.Blockade.Moderator.{
  Checkpoint, Reservation, ReservationInfo, Status, Moderator, returned, thrown, assign,
  process_ready_queue, init,
}
use rmf_traffic.Blockade.Moderator.Setting.{set_new, set}
use rmf_traffic.Blockade.Moderator.Calls.{
  is_at_most, modify, current, ready, release_from, release, reached_at, clamp, reached, cancel_all,
  cancel, Call, setting, readying, releasing, reaching, cancelling, cancelling_all, answer,
  answer_all,
}
use rmf_traffic.Blockade.Moderator.Calls.Consistent.{
  IsCurrent, Entry, IsConsistent, insert-Updates, erase-Updates, updated-IsConsistent,
}
use rmf_traffic.Blockade.Moderator.Calls.Entries.{
  IsGood, processed, present, current_known, replaced-IsConsistent, restated-IsConsistent,
}

module _ {Point Real : Type 0} where
  ready-IsGood :
      (p id c : ℕ) (m : Moderator Point Real)
      → IsConsistent m
      → IsCurrent m
      → IsGood (ready p id c m)
  unfolding ready
  ready-IsGood p id c m h k = elim (Option-cases (current p id c m)) [
    | inl e ↦
        let step : ready p id c m ≡ (m, returned) = ground (arith, e) in
        subst IsGood (sym step) (h, k, ground arith)
    | inr (info, e) ↦
        let l = current_known p id c m info e in
        let (status, r, ls, lr, x) = present m p info h l in
        elim (Bool-cases (is_at_most c status.last_ready)) [
          | inl b ↦
              let step : ready p id c m ≡ (m, returned) = ground (arith, e, ls, b) in
              subst IsGood (sym step) (h, k, ground arith)
          | inr b ↦
              let m' : Moderator Point Real = record m {
                statuses = insert p (record status { last_ready = some c }) m.statuses;
                ready_queue =
                    m.ready_queue
                    ++ record { participant_id = p; reservation_id = id; checkpoint = c } ∷ [];
              } in
              let step : ready p id c m ≡ process_ready_queue m' = ground (arith, e, ls, b) in
              subst IsGood (sym step) (
                processed m'
                  (restated-IsConsistent m m' p info (record status { last_ready = some c }) r h l
                    lr refl refl refl x)
                  k)
        ]
  ]

  release-IsGood :
      (p id c : ℕ) (m : Moderator Point Real)
      → IsConsistent m
      → IsCurrent m
      → IsGood (release p id c m)
  unfolding release release_from assign
  release-IsGood p id c m h k = elim (Option-cases (current p id c m)) [
    | inl e ↦
        let step : release p id c m ≡ (m, returned) = ground (arith, e) in
        subst IsGood (sym step) (h, k, ground arith)
    | inr (info, e) ↦
        let l = current_known p id c m info e in
        let (status, r, ls, lr, x) = present m p info h l in
        let from : ℕ = if leb c status.last_reached then status.last_reached else c in
        let m' : Moderator Point Real = release_from p id from status r m in
        let step : release p id c m ≡ process_ready_queue m' = rw (release, e, ls, lr) refl in
        let low : r.begin ≤ (if ltb from r.end then from else r.end) = ground (arith, x) in
        subst IsGood (sym step) (
          processed m'
            (replaced-IsConsistent m m' p info
              (record status { last_ready = (if ltb 0 from then some (from - 1) else none) })
              (record r { end = (if ltb from r.end then from else r.end) }) h l refl refl refl
              (x.0, x.1, low))
            k)
  ]

  reached_at-IsGood :
      (p c : ℕ) (m : Moderator Point Real) (info : ReservationInfo Point Real) (status : Status)
      (r : ReservedRange)
      → IsConsistent m
      → IsCurrent m
      → lookup p m.last_known_reservation ≡ some info
      → lookup p m.assignments.ranges ≡ some r
      → Entry (some info) (some status) (some r)
      → IsGood (reached_at p c status r m)
  unfolding reached_at assign
  reached_at-IsGood p c m info status r h k l lr x = elim (Bool-cases (ltb r.end c)) [
    | inl b ↦
        let m' : Moderator Point Real = record m {
          statuses = insert p (record status { critical_error = true }) m.statuses;
          assignments = modify m.assignments;
        } in
        let step : reached_at p c status r m
            ≡ (m', (if status.critical_error then returned else thrown)) =
          ground (arith, b) in
        subst IsGood (sym step) (
          restated-IsConsistent m m' p info (record status { critical_error = true }) r h l lr refl
              refl refl x,
          k,
          ground arith,
        )
    | inr b ↦
        let m' : Moderator Point Real = record m {
          statuses = insert p (record status { last_reached = c }) m.statuses;
          assignments = assign p (record r { begin = c }) m.assignments;
        } in
        let step : reached_at p c status r m ≡ process_ready_queue m' = ground (arith, b) in
        subst IsGood (sym step) (
          processed m'
            (replaced-IsConsistent m m' p info (record status { last_reached = c })
              (record r { begin = c }) h l refl refl refl (x.0, refl, ground (arith, b)))
            k)
  ]

  reached-IsGood :
      (p id c : ℕ) (m : Moderator Point Real)
      → IsConsistent m
      → IsCurrent m
      → IsGood (reached p id c m)
  unfolding reached
  reached-IsGood p id c m h k = elim (Option-cases (lookup p m.last_known_reservation)) [
    | inl l ↦
        let step : reached p id c m ≡ (m, returned) = ground (arith, l) in
        subst IsGood (sym step) (h, k, ground arith)
    | inr (info, l) ↦
        let (status, r, ls, lr, x) = present m p info h l in
        let at : ℕ = clamp (length info.reservation.path) c in
        elim (Bool-cases ((info.id == id) && not (leb at status.last_reached))) [
          | inl b ↦
              let step : reached p id c m ≡ reached_at p at status r m =
                ground (arith, l, ls, lr, b) in
              subst IsGood (sym step) (reached_at-IsGood p at m info status r h k l lr x)
          | inr b ↦
              let step : reached p id c m ≡ (m, returned) = ground (arith, l, ls, lr, b) in
              subst IsGood (sym step) (h, k, ground arith)
        ]
  ]

  cancel_all-IsGood :
      (p : ℕ) (m : Moderator Point Real) → IsConsistent m → IsCurrent m → IsGood (cancel_all p m)
  unfolding cancel_all
  cancel_all-IsGood p m h k =
      processed m'
        (updated-IsConsistent m m' p none none none (erase-Updates p m.last_known_reservation)
          (erase-Updates p m.statuses) (erase-Updates p m.assignments.ranges) tt h)
        refl
    where
      m' : Moderator Point Real
      m' = record m {
        last_known_reservation = erase p m.last_known_reservation;
        statuses = erase p m.statuses;
        peer_blockers = map_values (λ q peers. erase p peers) (erase p m.peer_blockers);
        peer_alignment = map_values (λ q peers. erase p peers) (erase p m.peer_alignment);
        assignments = record m.assignments {
          version = m.assignments.version + 1;
          ranges = erase p m.assignments.ranges;
        };
        final_constraints =
            compute_final_ShouldGo_constraints
              (map_values (λ q peers. erase p peers) (erase p m.peer_blockers))
              (map_values (λ q peers. erase p peers) (erase p m.peer_alignment));
      }

  cancel-IsGood :
      (p id : ℕ) (m : Moderator Point Real) → IsConsistent m → IsCurrent m → IsGood (cancel p id m)
  unfolding cancel
  cancel-IsGood p id m h k = elim (Option-cases (lookup p m.last_known_reservation)) [
    | inl l ↦
        let step : cancel p id m ≡ (m, returned) = ground (arith, l) in
        subst IsGood (sym step) (h, k, ground arith)
    | inr (info, l) ↦ elim (Bool-cases (ltb id info.id)) [
      | inl b ↦
          let step : cancel p id m ≡ (m, returned) = ground (arith, l, b) in
          subst IsGood (sym step) (h, k, ground arith)
      | inr b ↦
          let step : cancel p id m ≡ cancel_all p m = ground (arith, l, b) in
          subst IsGood (sym step) (cancel_all-IsGood p m h k)
    ]
  ]

init-IsCurrent :
    (Point : Type 0) → {Real : Type 0} → (angle : Real) → IsCurrent {Point = Point} (init angle)
unfolding init compute_final_ShouldGo_constraints first_order_of final_order_of
    compute_gridlock_constraint gridlocks search blockers_of start_queue number_of_dependencies
init-IsCurrent Point angle = refl

module _ {Point Real : Type 0} (modular : Modular)
    (compute_brackets : List (Checkpoint Point)
      → Real
      → List (Checkpoint Point)
      → Real
      → Real
      → Brackets) where
  set_new-IsGood :
      (p id : ℕ) (r : Reservation Point Real) (m : Moderator Point Real)
      → IsConsistent m
      → IsCurrent m
      → IsGood (process_ready_queue (set_new modular compute_brackets p id r m))
  unfolding set_new assign
  set_new-IsGood p id r m h k =
      processed (set_new modular compute_brackets p id r m)
        (updated-IsConsistent m (set_new modular compute_brackets p id r m) p
          (some (record { id = id; reservation = r }))
          (some (record {
            reservation = id;
            last_ready = none;
            last_reached = 0;
            critical_error = false;
          }))
          (some (record { begin = 0; end = 0 }))
          (insert-Updates p (record { id = id; reservation = r }) m.last_known_reservation)
          (insert-Updates p
            (record {
              reservation = id;
              last_ready = none;
              last_reached = 0;
              critical_error = false;
            })
            m.statuses)
          (insert-Updates p (record { begin = 0; end = 0 }) m.assignments.ranges)
          (refl, refl, omega arith) h)
        refl

  set-IsGood :
      (p id : ℕ) (r : Reservation Point Real) (m : Moderator Point Real)
      → IsConsistent m
      → IsCurrent m
      → IsGood (set modular compute_brackets p id r m)
  unfolding set
  set-IsGood p id r m h k = elim (Option-cases (lookup p m.last_known_reservation)) [
    | inl l ↦
        let step : set modular compute_brackets p id r m
            ≡ process_ready_queue (set_new modular compute_brackets p id r m) =
          ground (arith, l) in
        subst IsGood (sym step) (set_new-IsGood p id r m h k)
    | inr (info, l) ↦ elim (Bool-cases (modular.less_than_or_equal id info.id)) [
      | inl b ↦
          let step : set modular compute_brackets p id r m ≡ (m, returned) = ground (arith, l, b) in
          subst IsGood (sym step) (h, k, ground arith)
      | inr b ↦
          let step : set modular compute_brackets p id r m
              ≡ process_ready_queue (set_new modular compute_brackets p id r m) =
            ground (arith, l, b) in
          subst IsGood (sym step) (set_new-IsGood p id r m h k)
    ]
  ]

  -- From a moderator whose maps are in step and whose final constraints are those of the blockers
  -- and alignments that it keeps, every call comes to an end and leaves it so.
  pub answer-IsGood :
      (c : Call Point Real) (m : Moderator Point Real)
      → IsConsistent m
      → IsCurrent m
      → IsGood (answer modular compute_brackets c m)
  unfolding answer
  answer-IsGood (setting p id r) m h k = set-IsGood p id r m h k
  answer-IsGood (readying p id c) m h k = ready-IsGood p id c m h k
  answer-IsGood (releasing p id c) m h k = release-IsGood p id c m h k
  answer-IsGood (reaching p id c) m h k = reached-IsGood p id c m h k
  answer-IsGood (cancelling p id) m h k = cancel-IsGood p id m h k
  answer-IsGood (cancelling_all p) m h k = cancel_all-IsGood p m h k

  answer_all_good :
      (cs : List (Call Point Real)) (m : Moderator Point Real)
      → IsConsistent m
      → IsCurrent m
      → IsConsistent (answer_all modular compute_brackets cs m)
        × IsCurrent (answer_all modular compute_brackets cs m)
  unfolding answer_all
  answer_all_good [] m h k = (h, k)
  answer_all_good (c ∷ cs) m h k =
      let good = answer-IsGood c m h k in
      answer_all_good cs (answer modular compute_brackets c m).0 good.0 good.1

  -- After any calls on a new moderator, its maps are in step: a participant has a reservation, a
  -- status and a range or none of these, the status is that of the reservation, and the range
  -- starts at the checkpoint last reached and does not end before it. The final constraints are
  -- those of the blockers and alignments that are kept.
  pub answer_all-IsConsistent :
      (angle : Real) (cs : List (Call Point Real))
      → IsConsistent (answer_all modular compute_brackets cs (init angle))
        × IsCurrent (answer_all modular compute_brackets cs (init angle))
  unfolding init
  answer_all-IsConsistent angle cs =
      answer_all_good cs (init angle) (λ p. tt) (init-IsCurrent Point angle)
