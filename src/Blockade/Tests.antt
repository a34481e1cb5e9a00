-- ===== src/Blockade/Tests.antt =====
-- Runs of the blockade moderator and of its constraints on small inputs.
use rmf_traffic.Base.{
  ℕ, ◌≤◌, ◌<◌, ◌≡◌, ◌≢◌, refl, true, false, none, some, List, [], ◌∷◌, ◌++◌, ◌⊎◌, arith,
}
use rmf_traffic.Base.Modular.{modular}
use rmf_traffic.Base.Assoc.{lookup}
use rmf_traffic.Blockade.Range.{ReservedRange, State}
use rmf_traffic.Blockade.Timeline.{Bracket}
use rmf_traffic.Blockade.Constraint.Partial.{
  HasTimelines, partial_evaluate-evaluate, evaluate_total,
}
use rmf_traffic.Blockade.Gridlock.Search.{gridlocks_total}
use rmf_traffic.Blockade.Conflicts.Final.Peers.{compute_final_ShouldGo_constraints-peers}
use rmf_traffic.Blockade.Constraint.{
  Constraint, blockage, any_of, cons, nil, passed, evaluate, partial_evaluate, dependencies,
  has_passed,
}
use rmf_traffic.Blockade.Conflicts.{Brackets, IndexToConstraint, PeerToPeerBlockers}
use rmf_traffic.Blockade.Conflicts.Final.{compute_final_ShouldGo_constraints}
use rmf_traffic.Blockade.Gridlock.{gridlocks}
use rmf_traffic.Blockade.Moderator.{
  Checkpoint, Reservation, ReservationInfo, ReadyInfo, Status, Moderator, finished, init, assign,
  check_reservation,
}
use rmf_traffic.Blockade.Moderator.Calls.{
  Call, setting, readying, releasing, reaching, release, answer, answer_all,
}
use rmf_traffic.Blockade.Moderator.Grant.{check_reservation_safe}
use rmf_traffic.Blockade.Moderator.Calls.Consistent.{IsConsistent, IsCurrent}
use rmf_traffic.Blockade.Moderator.Calls.Preserved.{answer-IsGood, answer_all-IsConsistent}
use rmf_traffic.Blockade.Moderator.Calls.Effects.{release_bound}
use rmf_traffic.Blockade.Participant.{Participant}
use rmf_traffic.Blockade.Moderator.Calls.Entries.{IsGood}
use rmf_traffic.Blockade.Moderator.Calls.Respects.{check_reservation-respects}

abbrev point : ℕ → Checkpoint ℕ
point n = record { position = n; map_name = 0; can_hold = true }

abbrev four : Reservation ℕ ℕ
four = record { path = point 0 ∷ point 1 ∷ point 2 ∷ point 3 ∷ []; radius = 1 }

-- Any two paths cross between their second and third checkpoints.
abbrev crossing : Bracket
crossing = record { start = 1; finish = 2; include_start = true; include_finish = true }

abbrev cross : List (Checkpoint ℕ) → ℕ → List (Checkpoint ℕ) → ℕ → ℕ → Brackets
cross a ra b rb angle = record {
  conflicts = record { a = crossing; b = crossing } ∷ [];
  alignments = [];
}

abbrev two_paths : List (Call ℕ ℕ)
two_paths = setting 1 0 four ∷ setting 2 0 four ∷ []

abbrev after_two : Moderator ℕ ℕ
after_two = answer_all modular cross two_paths (init 0)

abbrev going : ReadyInfo
going = record { participant_id = 1; reservation_id = 0; checkpoint = 2 }

abbrev at_start : ReservedRange
at_start = record { begin = 0; end = 0 }

abbrev to_third : ReservedRange
to_third = record { begin = 0; end = 3 }

abbrev after_check : Moderator ℕ ℕ
after_check = record after_two {
  assignments = assign 1 (record { begin = 0; end = 3 }) after_two.assignments;
}

granted : check_reservation going after_two ≡ some (after_check, finished)
unfolding check_reservation answer_all init evaluate partial_evaluate dependencies
granted = refl

check_reservation-respects_example :
    evaluate
      (blockage 2 (some 0) (some (record { index = 2; condition = has_passed })))
      after_check.assignments.ranges
    ≡ some true
unfolding answer_all init
check_reservation-respects_example =
    check_reservation-respects modular cross 0 two_paths going after_two after_check finished
      at_start to_third refl granted refl refl (omega arith)
      ((2, (0, blockage 2 (some 0) (some (record { index = 2; condition = has_passed }))) ∷ [])
        ∷ [])
      2 0 ((0, blockage 2 (some 0) (some (record { index = 2; condition = has_passed }))) ∷ [])
      (blockage 2 (some 0) (some (record { index = 2; condition = has_passed }))) refl refl refl
      (omega arith) (omega arith)

check_reservation_safe_example :
    (to_third ≡ at_start)
    ⊎ ((to_third.begin ≡ at_start.begin)
        × (0 < 3)
        × (3 ≤ 3)
        × ((cs : IndexToConstraint) (i : ℕ) (k : Constraint)
            → lookup 1 after_two.final_constraints.should_go ≡ some cs
            → lookup i cs ≡ some k
            → 0 ≤ i
            → i < 3
            → evaluate k after_check.assignments.ranges ≡ some true))
unfolding answer_all init
check_reservation_safe_example =
    check_reservation_safe going after_two after_check finished at_start to_third granted refl refl

-- The second participant has the crossing, and the first waits.
abbrev one_waits : Moderator ℕ ℕ
one_waits = answer_all modular cross (two_paths ++ readying 2 0 2 ∷ readying 1 0 2 ∷ []) (init 0)

answer_all-IsConsistent_example : IsConsistent one_waits × IsCurrent one_waits
answer_all-IsConsistent_example =
    answer_all-IsConsistent modular cross 0 (two_paths ++ readying 2 0 2 ∷ readying 1 0 2 ∷ [])

answer-IsGood_example : IsGood (answer modular cross (reaching 2 0 3) one_waits)
answer-IsGood_example =
    answer-IsGood modular cross (reaching 2 0 3) one_waits answer_all-IsConsistent_example.0
      answer_all-IsConsistent_example.1

release_bound_example : 1 ≤ 2
unfolding answer_all init release evaluate dependencies partial_evaluate
release_bound_example =
    release_bound 2 0 1 one_waits (record { id = 0; reservation = four })
      (record { reservation = 0; last_ready = some 2; last_reached = 0; critical_error = false })
      (record { begin = 0; end = 3 }) (record { begin = 0; end = 1 }) refl refl refl refl

-- The first gives the way beyond checkpoint 1 back while it waits, and is then given checkpoint 2
-- of its path.
regranted :
    lookup 1
      (answer_all modular cross
        (releasing 1 0 1 ∷ reaching 2 0 3 ∷ [])
        one_waits).assignments.ranges
    ≡ some (record { begin = 0; end = 2 })
unfolding answer_all init evaluate dependencies partial_evaluate
regranted = refl

abbrev hold_two : Constraint
hold_two = blockage 2 (some 0) (some (record { index = 2; condition = has_passed }))

abbrev blockers : PeerToPeerBlockers
blockers = (1, (2, (0, hold_two) ∷ []) ∷ []) ∷ []

compute_final_ShouldGo_constraints-peers_example :
    (cs : IndexToConstraint) × (final : Constraint) × (lookup 1
        (compute_final_ShouldGo_constraints blockers []).should_go
      ≡ some cs)
    × (lookup 0 cs ≡ some final)
    × ((s : State) → evaluate final s ≡ some true → evaluate hold_two s ≡ some true)
compute_final_ShouldGo_constraints-peers_example =
    compute_final_ShouldGo_constraints-peers blockers [] 1 2 0 ((2, (0, hold_two) ∷ []) ∷ [])
      ((0, hold_two) ∷ []) hold_two refl refl refl

gridlocks_total_example :
    gridlocks ((1, (0, hold_two) ∷ []) ∷ (2, (0, blockage 1 (some 0) none) ∷ []) ∷ []) ≢ none
gridlocks_total_example =
    gridlocks_total ((1, (0, hold_two) ∷ []) ∷ (2, (0, blockage 1 (some 0) none) ∷ []) ∷ [])

abbrev second_ahead : State
second_ahead = (2, record { begin = 1; end = 2 }) ∷ []

abbrev either : Constraint
either = any_of (cons hold_two (cons (passed 2 0) nil))

partial_evaluate-evaluate_example : true ≡ true
unfolding evaluate partial_evaluate
partial_evaluate-evaluate_example =
    partial_evaluate-evaluate either second_ahead second_ahead true true (λ k r h. h) refl refl

evaluate_total_example : evaluate either second_ahead ≢ none
unfolding dependencies HasTimelines
evaluate_total_example =
    evaluate_total either second_ahead (tt, (tt, tt))
      (λ h. ground (arith, h), (λ h. ground (arith, h), tt))

abbrev eager : Participant ℕ ℕ
eager = record {
  id = 1;
  reservation_id = some 0;
  current_reservation = four;
  last_ready = some 1;
  last_reached = 0;
}

abbrev four_info : ReservationInfo ℕ ℕ
four_info = record { id = 0; reservation = four }

abbrev idle : Status
idle = record { reservation = 0; last_ready = none; last_reached = 0; critical_error = false }
