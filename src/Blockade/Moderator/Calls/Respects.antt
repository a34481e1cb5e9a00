-- ===== src/Blockade/Moderator/Calls/Respects.antt =====
-- The ranges that the moderator grants, and the blockers of the peers.
use rmf_traffic.Base.{ℕ, ◌≤◌, ◌<◌, ◌≡◌, sym, subst, inl, inr, true, some, List, arith}
use rmf_traffic.Base.Modular.{Modular}
use rmf_traffic.Base.Assoc.{lookup}
use rmf_traffic.Blockade.Range.{ReservedRange}
use rmf_traffic.Blockade.Constraint.{Constraint, evaluate}
use rmf_traffic.Blockade.Conflicts.{IndexToConstraint, Blockers, Brackets, FinalConstraints}
use rmf_traffic.Blockade.Conflicts.Final.Peers.{compute_final_ShouldGo_constraints-peers}
use rmf_traffic.Blockade.Moderator.{
  Checkpoint, Moderator, ReadyInfo, ReadyStatus, check_reservation, init,
}
use rmf_traffic.Blockade.Moderator.Grant.{check_reservation_safe}
use rmf_traffic.Blockade.Moderator.Calls.{Call, answer_all}
use rmf_traffic.Blockade.Moderator.Calls.Consistent.{IsCurrent}
use rmf_traffic.Blockade.Moderator.Calls.Preserved.{answer_all-IsConsistent}

module _ {Point Real : Type 0} where
  granted_respects :
      (x : ReadyInfo) (m m' : Moderator Point Real) (st : ReadyStatus) (r r' : ReservedRange)
      → IsCurrent m
      → check_reservation x m ≡ some (m', st)
      → lookup x.participant_id m.assignments.ranges ≡ some r
      → lookup x.participant_id m'.assignments.ranges ≡ some r'
      → r.end < r'.end
      → (peers : Blockers) (q i : ℕ) (peer : IndexToConstraint) (k : Constraint)
      → lookup x.participant_id m.peer_blockers ≡ some peers
      → lookup q peers ≡ some peer
      → lookup i peer ≡ some k
      → r'.begin ≤ i
      → i < r'.end
      → evaluate k m'.assignments.ranges ≡ some true
  granted_respects x m m' st r r' current h l l' wider peers q i peer k lp lq li lo hi =
      let (cs, final, a, b, implies) =
        compute_final_ShouldGo_constraints-peers m.peer_blockers m.peer_alignment x.participant_id q
          i peers peer k lp lq li in
      let a' : lookup x.participant_id m.final_constraints.should_go ≡ some cs =
        subst (λ (f : FinalConstraints). lookup x.participant_id f.should_go ≡ some cs)
          (sym current) a in
      elim (check_reservation_safe x m m' st r r' h l l') [
        | inl same ↦ absurd (ground (arith, same, wider))
        | inr safe ↦ implies m'.assignments.ranges (safe.3 cs i final a' b lo hi)
      ]

module _ {Point Real : Type 0} (modular : Modular)
    (compute_brackets : List (Checkpoint Point)
      → Real
      → List (Checkpoint Point)
      → Real
      → Real
      → Brackets) where
  -- After any calls on a new moderator: where a check of a ready entry widens the range of its
  -- participant, every constraint that any peer puts on a checkpoint of the range holds for the
  -- ranges that are then assigned.
  pub check_reservation-respects :
      (angle : Real) (calls : List (Call Point Real)) (x : ReadyInfo) (m m' : Moderator Point Real)
      (st : ReadyStatus) (r r' : ReservedRange)
      → m ≡ answer_all modular compute_brackets calls (init angle)
      → check_reservation x m ≡ some (m', st)
      → lookup x.participant_id m.assignments.ranges ≡ some r
      → lookup x.participant_id m'.assignments.ranges ≡ some r'
      → r.end < r'.end
      → (peers : Blockers) (q i : ℕ) (peer : IndexToConstraint) (k : Constraint)
      → lookup x.participant_id m.peer_blockers ≡ some peers
      → lookup q peers ≡ some peer
      → lookup i peer ≡ some k
      → r'.begin ≤ i
      → i < r'.end
      → evaluate k m'.assignments.ranges ≡ some true
  check_reservation-respects angle calls x m m' st r r' e =
      let current : IsCurrent m =
        subst (λ (n : Moderator Point Real). IsCurrent n) (sym e)
          (answer_all-IsConsistent modular compute_brackets angle calls).1 in
      granted_respects x m m' st r r' current
