-- ===== src/Blockade/Moderator/Grant.antt =====
-- check_reservation: the range that a check gives, and the constraints on its checkpoints.
use rmf_traffic.Base.{ℕ, ◌+◌, ◌-◌, ◌≤◌, ◌<◌, ◌≡◌, refl, subst, ◌⊎◌, inl, inr, true, some, arith}
use rmf_traffic.Base.Assoc.{lookup, lookup-insert}
use rmf_traffic.Blockade.Range.{ReservedRange}
use rmf_traffic.Blockade.Constraint.{Constraint, evaluate}
use rmf_traffic.Blockade.Conflicts.{IndexToConstraint}
use rmf_traffic.Blockade.Moderator.{
  Moderator, ReadyInfo, ReadyStatus, skip, incomplete, finished, assign, acceptable,
  check_reservation,
}
use rmf_traffic.Blockade.Moderator.Reserve.{
  acceptable_holds, Granted, Answer, check_reservation-Answer,
}

module _ {Point Real : Type 0} (x : ReadyInfo) (m m' : Moderator Point Real) where
  granted_range :
      (r r' : ReservedRange) (e : ℕ)
      → m' ≡ record m { assignments = assign x.participant_id (record r { end = e }) m.assignments }
      → lookup x.participant_id m'.assignments.ranges ≡ some r'
      → r' ≡ record r { end = e }
  unfolding assign
  granted_range r r' e q l = ground (
    arith,
    q,
    lookup-insert x.participant_id x.participant_id (record r { end = e }) m.assignments.ranges,
  )

  Granted-safe :
      (r' : ReservedRange) (cs : IndexToConstraint) (i : ℕ) (k : Constraint)
      → Granted x m m'
      → lookup x.participant_id m'.assignments.ranges ≡ some r'
      → lookup x.participant_id m.final_constraints.should_go ≡ some cs
      → lookup i cs ≡ some k
      → r'.begin ≤ i
      → i < r'.end
      → evaluate k m'.assignments.ranges ≡ some true
  unfolding assign
  Granted-safe r' cs i k (r, e, l, a, b, q, best) l' c h lo hi =
      acceptable_holds (e - r.begin) r.begin cs m'.assignments.ranges i k fits
        (omega (arith, same_begin)) (omega (arith, same_end)) h
    where
      new : ReservedRange
      new = record r { end = e }

      same : r' ≡ new
      same = granted_range r r' e q l'

      fits : acceptable (e - r.begin) r.begin cs m'.assignments.ranges ≡ some true
      fits = rw q (best cs c).0

      same_begin : r'.begin ≡ r.begin
      same_begin = rw same refl

      same_end : r'.end ≡ e
      same_end = rw same refl

  -- A check leaves the range of its participant as it is, or widens it: then the range starts where
  -- it did and ends later, not beyond the checkpoint after the one that the participant is ready to
  -- leave, and every constraint on a checkpoint of the new range holds in the new state.
  pub check_reservation_safe :
      (st : ReadyStatus) (r r' : ReservedRange)
      → check_reservation x m ≡ some (m', st)
      → lookup x.participant_id m.assignments.ranges ≡ some r
      → lookup x.participant_id m'.assignments.ranges ≡ some r'
      → (r' ≡ r)
        ⊎ ((r'.begin ≡ r.begin)
            × (r.end < r'.end)
            × (r'.end ≤ x.checkpoint + 1)
            × ((cs : IndexToConstraint) (i : ℕ) (k : Constraint)
                → lookup x.participant_id m.final_constraints.should_go ≡ some cs
                → lookup i cs ≡ some k
                → r'.begin ≤ i
                → i < r'.end
                → evaluate k m'.assignments.ranges ≡ some true))
  check_reservation_safe st r r' h l l' =
      (elim st as (λ b. Answer x m m' b → Goal) [
        | skip ↦ λ e. inl (kept e)
        | incomplete ↦ λ g. inr (widened g)
        | finished ↦ elim [ inl e ↦ inl (kept e) | inr g ↦ inr (widened g) ]
      ])
        (check_reservation-Answer x m m' st h)
    where
      Safe : Type 0
      Safe =
          (r'.begin ≡ r.begin)
          × (r.end < r'.end)
          × (r'.end ≤ x.checkpoint + 1)
          × ((cs : IndexToConstraint) (i : ℕ) (k : Constraint)
              → lookup x.participant_id m.final_constraints.should_go ≡ some cs
              → lookup i cs ≡ some k
              → r'.begin ≤ i
              → i < r'.end
              → evaluate k m'.assignments.ranges ≡ some true)

      Goal : Type 0
      Goal = (r' ≡ r) ⊎ Safe

      kept : m' ≡ m → r' ≡ r
      kept e = ground (
        arith,
        subst (λ (n : Moderator Point Real). lookup x.participant_id n.assignments.ranges ≡ some r')
            e l',
      )

      widened : Granted x m m' → Safe
      widened (old, e, lo, a, b, q, best) =
          let same_old : old ≡ r = ground arith in
          let same_new : r' ≡ record old { end = e } = granted_range old r' e q l' in
          (
            ground arith,
            ground arith,
            ground arith,
            λ cs i k c hh lo' hi. Granted-safe r' cs i k (old, e, lo, a, b, q, best) l' c hh lo' hi,
          )
