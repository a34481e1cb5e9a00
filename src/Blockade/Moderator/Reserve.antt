-- ===== src/Blockade/Moderator/Reserve.antt =====
-- check_reservation: the ends that it tries, and its three answers.
use rmf_traffic.Base.{
  ℕ, zero, suc, ◌+◌, ◌-◌, ◌≤◌, ◌<◌, ◌≡◌, refl, ◌⊎◌, inl, inr, true, false, Option, none, some, ltb,
  ◌==◌, if◌then◌else◌, arith, Option-cases, Bool-cases,
}
use rmf_traffic.Base.Assoc.{lookup}
use rmf_traffic.Blockade.Range.{ReservedRange, State}
use rmf_traffic.Blockade.Constraint.{Constraint, evaluate}
use rmf_traffic.Blockade.Conflicts.{IndexToConstraint}
use rmf_traffic.Blockade.Moderator.{
  Moderator, ReadyInfo, ReadyStatus, skip, incomplete, finished, assign, acceptable, acceptable_end,
  find_end, reserve, check_range, check_reservation,
}

-- The ends that are tried: e is the first that is acceptable, from check_end down.
find_end-some :
    (n check_end p : ℕ) (r : ReservedRange) (cs : IndexToConstraint) (s : State) (e : ℕ)
    → n ≤ check_end
    → find_end n check_end p r cs s ≡ some (some e)
    → (check_end < e + n) × (e ≤ check_end) × (acceptable_end p r e cs s ≡ some true)
unfolding find_end
find_end-some zero check_end p r cs s e l h = absurd (cc)
find_end-some (suc n) check_end p r cs s e l h =
    ground (arith, find_end-some n (check_end - 1) p r cs s e)

-- No later end is acceptable.
find_end_first :
    (n check_end p : ℕ) (r : ReservedRange) (cs : IndexToConstraint) (s : State) (e e' : ℕ)
    → n ≤ check_end
    → find_end n check_end p r cs s ≡ some (some e)
    → e < e'
    → e' ≤ check_end
    → acceptable_end p r e' cs s ≡ some false
unfolding find_end
find_end_first zero check_end p r cs s e e' l h a b = absurd (cc)
find_end_first (suc n) check_end p r cs s e e' l h a b =
    ground (arith, find_end_first n (check_end - 1) p r cs s e e')

find_end-none :
    (n check_end p : ℕ) (r : ReservedRange) (cs : IndexToConstraint) (s : State) (e' : ℕ)
    → n ≤ check_end
    → find_end n check_end p r cs s ≡ some none
    → check_end < e' + n
    → e' ≤ check_end
    → acceptable_end p r e' cs s ≡ some false
unfolding find_end
find_end-none zero check_end p r cs s e' l h a b = absurd (omega arith)
find_end-none (suc n) check_end p r cs s e' l h a b =
    ground (arith, find_end-none n (check_end - 1) p r cs s e')

-- A range that is acceptable meets every constraint on its checkpoints.
pub acceptable_holds :
    (n c : ℕ) (cs : IndexToConstraint) (s : State) (i : ℕ) (k : Constraint)
    → acceptable n c cs s ≡ some true
    → c ≤ i
    → i < c + n
    → lookup i cs ≡ some k
    → evaluate k s ≡ some true
unfolding acceptable
acceptable_holds zero c cs s i k h a b l = absurd (omega arith)
acceptable_holds (suc n) c cs s i k h a b l = elim (Bool-cases (c == i)) [
  | inl e ↦
      let here : c ≡ i = ground (arith, e) in
      let found : lookup c cs ≡ some k = rw here l in
      let holds : evaluate k s ≡ some true = ground (arith, found, h) in holds
  | inr e ↦ ground (arith, acceptable_holds n (suc c) cs s i k)
]

-- The end e is acceptable to the constraints of the participant, and no later one up to the
-- checkpoint after the one it is ready to leave is.
abbrev pub IsBestEnd :
    {Point Real : Type 0} → ReadyInfo → Moderator Point Real → ReservedRange → ℕ → Type 0
IsBestEnd x m r e =
    (cs : IndexToConstraint)
    → lookup x.participant_id m.final_constraints.should_go ≡ some cs
    → (acceptable_end x.participant_id r e cs m.assignments.ranges ≡ some true)
      × ((e' : ℕ)
          → e < e'
          → e' ≤ x.checkpoint + 1
          → acceptable_end x.participant_id r e' cs m.assignments.ranges ≡ some false)

-- A check widens the participant's range to the best end, and changes nothing else.
abbrev pub Granted :
    {Point Real : Type 0} → ReadyInfo → Moderator Point Real → Moderator Point Real → Type 0
Granted x m m' =
    (r : ReservedRange) × (e : ℕ) × (lookup x.participant_id m.assignments.ranges ≡ some r)
    × (r.end < e)
    × (e ≤ x.checkpoint + 1)
    × (m' ≡ record m { assignments = assign x.participant_id (record r { end = e }) m.assignments })
    × IsBestEnd x m r e

module _ {Point Real : Type 0} (x : ReadyInfo) (m : Moderator Point Real) where
  -- The three answers of a check.
  abbrev pub Answer : Moderator Point Real → ReadyStatus → Type 0
  Answer m' finished = (m' ≡ m) ⊎ Granted x m m'
  Answer m' incomplete = Granted x m m'
  Answer m' skip = m' ≡ m

  reserve-Answer :
      (r : ReservedRange) (cs : IndexToConstraint) (m' : Moderator Point Real) (st : ReadyStatus)
      → lookup x.participant_id m.assignments.ranges ≡ some r
      → lookup x.participant_id m.final_constraints.should_go ≡ some cs
      → r.end ≤ x.checkpoint
      → reserve x r cs m ≡ some (m', st)
      → Answer m' st
  unfolding reserve
  reserve-Answer r cs m' st l c b h =
      go
        (find_end (x.checkpoint + 1 - r.end) (x.checkpoint + 1) x.participant_id r cs
          m.assignments.ranges)
        refl
    where
      best :
          (k : ℕ)
          → find_end
              (x.checkpoint + 1 - r.end)
              (x.checkpoint + 1)
              x.participant_id
              r
              cs
              m.assignments.ranges
            ≡ some (some k)
          → acceptable_end x.participant_id r k cs m.assignments.ranges ≡ some true
          → IsBestEnd x m r k
      best k e a cs' c' =
          let same : cs' ≡ cs = cc in
          rw same (
            a,
            λ e' above below.
                find_end_first (x.checkpoint + 1 - r.end) (x.checkpoint + 1) x.participant_id r cs
                  m.assignments.ranges k e' (omega arith) e above below,
          )

      go :
          (o : Option (Option ℕ))
          → find_end
              (x.checkpoint + 1 - r.end)
              (x.checkpoint + 1)
              x.participant_id
              r
              cs
              m.assignments.ranges
            ≡ o
          → Answer m' st
      go none e = absurd (ground (arith, e, h))
      go (some none) e = let p : (m' ≡ m) × (st ≡ skip) = ground (arith, e, h) in rw (p.1) p.0
      go (some (some k)) e =
          let bounds =
            find_end-some (x.checkpoint + 1 - r.end) (x.checkpoint + 1) x.participant_id r cs
              m.assignments.ranges k (omega arith) e in
          let p : (m' ≡ record m {
            assignments = assign x.participant_id (record r { end = k }) m.assignments;
          })
              × (st ≡ (if k == x.checkpoint + 1 then finished else incomplete)) =
            ground (arith, e, h) in
          let grant : Granted x m m' =
            (r, k, l, omega (arith, bounds), bounds.1, p.0, best k e bounds.2) in
          elim (Bool-cases (k == x.checkpoint + 1)) [
            | inl q ↦ let s : st ≡ finished = ground (arith, p.1, q) in rw s (inr grant)
            | inr q ↦ let s : st ≡ incomplete = ground (arith, p.1, q) in rw s grant
          ]

  check_range-Answer :
      (r : ReservedRange) (m' : Moderator Point Real) (st : ReadyStatus)
      → lookup x.participant_id m.assignments.ranges ≡ some r
      → check_range x r m ≡ some (m', st)
      → Answer m' st
  unfolding check_range
  check_range-Answer r m' st l h = elim (Bool-cases (ltb x.checkpoint r.end)) [
    | inl q ↦ let p : (m' ≡ m) × (st ≡ finished) = ground (arith, q, h) in rw (p.1) (inl p.0)
    | inr q ↦ elim (Option-cases (lookup x.participant_id m.final_constraints.should_go)) [
      | inl n ↦
          let p : (m' ≡ record m {
            assignments =
                assign x.participant_id (record r { end = x.checkpoint + 1 }) m.assignments;
          })
              × (st ≡ finished) =
            ground (arith, q, n, h) in
          rw (p.1) (
            inr (
              r,
              x.checkpoint + 1,
              l,
              ground (arith, q),
              omega arith,
              p.0,
              λ cs c. absurd (ground (arith, n, c)),
            ))
      | inr (cs, n) ↦
          let again : reserve x r cs m ≡ some (m', st) = ground (arith, q, n, h) in
          reserve-Answer r cs m' st l n (ground (arith, q)) again
    ]
  ]

  pub check_reservation-Answer :
      (m' : Moderator Point Real) (st : ReadyStatus)
      → check_reservation x m ≡ some (m', st)
      → Answer m' st
  unfolding check_reservation
  check_reservation-Answer m' st h =
      elim (Option-cases (lookup x.participant_id m.last_known_reservation)) [
        | inl n ↦ let p : (m' ≡ m) × (st ≡ finished) = ground (arith, n, h) in rw (p.1) (inl p.0)
        | inr (info, n) ↦ elim (Bool-cases (info.id == x.reservation_id)) [
          | inr q ↦
              let p : (m' ≡ m) × (st ≡ finished) = ground (arith, n, q, h) in rw (p.1) (inl p.0)
          | inl q ↦ elim (Option-cases (lookup x.participant_id m.assignments.ranges)) [
            | inl k ↦ absurd (ground (arith, n, q, k, h))
            | inr (r, k) ↦
                let again : check_range x r m ≡ some (m', st) = ground (arith, n, q, k, h) in
                check_range-Answer r m' st k again
          ]
        ]
      ]
