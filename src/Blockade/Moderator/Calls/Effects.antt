-- ===== src/Blockade/Moderator/Calls/Effects.antt =====
-- What release leaves of a range.
use rmf_traffic.Base.{
  ℕ, ◌+◌, ◌≤◌, ◌≡◌, ◌≢◌, refl, sym, subst, inl, inr, false, some, List, [], ◌∷◌, All, ltb, leb,
  arith, Option-cases, Bool-cases, ◌==◌, if◌then◌else◌,
}
use rmf_traffic.Base.Assoc.{lookup, lookup-insert}
use rmf_traffic.Blockade.Range.{ReservedRange}
use rmf_traffic.Blockade.Moderator.{
  ReservationInfo, ReadyInfo, Status, Moderator, Outcome, ReadyStatus, skip, incomplete, finished,
  assign, check_reservation, process_ready_queue,
}
use rmf_traffic.Blockade.Moderator.Keeps.{process_ready_queue_keeps}
use rmf_traffic.Blockade.Moderator.Reserve.{Granted, Answer, check_reservation-Answer}
use rmf_traffic.Blockade.Moderator.Calls.{
  current, lower_entries, erase_entries, release_from, release,
}

-- An entry of the participant p for the reservation id goes up to the checkpoint c at most.
abbrev IsUpTo : ℕ → ℕ → ℕ → ReadyInfo → Type 0
IsUpTo p id c x = x.participant_id ≡ p → x.reservation_id ≡ id → x.checkpoint ≤ c

lower_entries_bound :
    (p id c : ℕ) (xs : List ReadyInfo) → All (IsUpTo p id c) (lower_entries p id c xs)
unfolding lower_entries
lower_entries_bound p id c [] = tt
lower_entries_bound p id c (x ∷ xs) = (λ e f. ground (arith, e, f), lower_entries_bound p id c xs)

erase_entries_bound : (p id c : ℕ) (xs : List ReadyInfo) → All (IsUpTo p id c) (erase_entries p xs)
unfolding erase_entries
erase_entries_bound p id c [] = tt
erase_entries_bound p id c (x ∷ xs) = elim (Bool-cases (p == x.participant_id)) [
  | inl b ↦
      let step : erase_entries p (x ∷ xs) ≡ erase_entries p xs = rw (erase_entries, b) refl in
      subst (All (IsUpTo p id c)) (sym step) (erase_entries_bound p id c xs)
  | inr b ↦
      let step : erase_entries p (x ∷ xs) ≡ x ∷ erase_entries p xs = rw (erase_entries, b) refl in
      subst (All (IsUpTo p id c)) (sym step)
        (λ e f. ground (arith, b, e), erase_entries_bound p id c xs)
]

module _ {Point Real : Type 0} (p id c : ℕ) where
  -- The reservation of p is id, and its range ends at the checkpoint after c at the latest.
  abbrev IsBounded : Moderator Point Real → Type 0
  IsBounded m =
      ((info : ReservationInfo Point Real)
        → lookup p m.last_known_reservation ≡ some info
        → info.id ≡ id)
      × ((r : ReservedRange) → lookup p m.assignments.ranges ≡ some r → r.end ≤ c + 1)

  other_id :
      (x : ReadyInfo) (m m' : Moderator Point Real) (st : ReadyStatus)
      → IsBounded m
      → x.participant_id ≡ p
      → x.reservation_id ≢ id
      → check_reservation x m ≡ some (m', st)
      → m' ≡ m
  unfolding check_reservation
  other_id x m m' st b e n h =
      elim (Option-cases (lookup x.participant_id m.last_known_reservation)) [
        | inl l ↦ let q : (m' ≡ m) × (st ≡ finished) = ground (arith, l, h) in q.0
        | inr (info, l) ↦
            let same : info.id ≡ id =
              b.0 info (subst (λ (k : ℕ). lookup k m.last_known_reservation ≡ some info) e l) in
            let no : (info.id == x.reservation_id) ≡ false = ground (arith, same, n) in
            let q : (m' ≡ m) × (st ≡ finished) = ground (arith, l, no, h) in q.0
      ]

  Granted-bound :
      (x : ReadyInfo) (m m' : Moderator Point Real)
      → (x.participant_id ≡ p → x.checkpoint ≤ c)
      → Granted x m m'
      → IsBounded m
      → IsBounded m'
  unfolding assign
  Granted-bound x m m' u (r, e, l, lo, hi, q, best) b =
      subst (λ (k : Moderator Point Real). IsBounded k) (sym q)
        (
          b.0,
          λ r' l'. ground (
            arith,
            u,
            hi,
            b.1 r',
            lookup-insert p x.participant_id (record r { end = e }) m.assignments.ranges,
            l',
          ),
        )

  checked_bound :
      (x : ReadyInfo) (m m' : Moderator Point Real) (st : ReadyStatus)
      → IsUpTo p id c x
      → check_reservation x m ≡ some (m', st)
      → IsBounded m
      → IsBounded m'
  checked_bound x m m' st u h b = elim (Bool-cases (x.participant_id == p)) [
    | inr q ↦ answered λ e. absurd (ground (arith, q, e))
    | inl q ↦
        let here : x.participant_id ≡ p = ground (arith, q) in
        elim (Bool-cases (x.reservation_id == id)) [
          | inl i ↦ answered λ e. u e (ground (arith, i))
          | inr i ↦
              let same : m' ≡ m = other_id x m m' st b here (ground (arith, i)) h in
              subst (λ (k : Moderator Point Real). IsBounded k) (sym same) b
        ]
  ]
    where
      kept : m' ≡ m → IsBounded m'
      kept e = subst (λ (k : Moderator Point Real). IsBounded k) (sym e) b

      answered : (x.participant_id ≡ p → x.checkpoint ≤ c) → IsBounded m'
      answered v =
          (elim st as (λ k. Answer x m m' k → IsBounded m') [
            | skip ↦ λ e. kept e
            | incomplete ↦ λ g. Granted-bound x m m' v g b
            | finished ↦ elim [ inl e ↦ kept e | inr g ↦ Granted-bound x m m' v g b ]
          ])
            (check_reservation-Answer x m m' st h)

module _ {Point Real : Type 0} where
  current_id :
      (p id c : ℕ) (m : Moderator Point Real) (info : ReservationInfo Point Real)
      → current p id c m ≡ some info
      → (lookup p m.last_known_reservation ≡ some info) × (info.id ≡ id)
  unfolding current
  current_id p id c m info h = ground (arith, h)

  release_from_bound :
      (p id c : ℕ) (status : Status) (r : ReservedRange) (m : Moderator Point Real)
      (info : ReservationInfo Point Real)
      → lookup p m.last_known_reservation ≡ some info
      → info.id ≡ id
      → IsBounded p id c (process_ready_queue (release_from p id c status r m)).0
  unfolding release_from assign
  release_from_bound p id c status r m info l i =
      process_ready_queue_keeps (IsUpTo p id c) (λ k. IsBounded p id c k)
        (λ x k k' st u h b. checked_bound p id c x k k' st u h b) (λ k q b. b)
        (release_from p id c status r m) entries
        (
          λ j lj. ground (arith, l, lj, i),
          λ r' l'. ground (
            arith,
            lookup-insert p p (record r { end = (if ltb c r.end then c else r.end) })
                m.assignments.ranges,
            l',
          ),
        )
    where
      entries :
          All
            (IsUpTo p id c)
            (if ltb 0 c then lower_entries p id c m.ready_queue else erase_entries p m.ready_queue)
      entries = elim (Bool-cases (ltb 0 c)) [
        | inl b ↦ rw b (lower_entries_bound p id c m.ready_queue)
        | inr b ↦ rw b (erase_entries_bound p id c m.ready_queue)
      ]

  -- Where release takes a reservation back to a checkpoint, which is the last one reached if that
  -- is later, the participant's range afterwards ends one checkpoint after it at the latest.
  pub release_bound :
      (p id checkpoint : ℕ) (m : Moderator Point Real) (info : ReservationInfo Point Real)
      (status : Status) (r r' : ReservedRange)
      → current p id checkpoint m ≡ some info
      → lookup p m.statuses ≡ some status
      → lookup p m.assignments.ranges ≡ some r
      → lookup p (release p id checkpoint m).0.assignments.ranges ≡ some r'
      → r'.end
        ≤ (if leb checkpoint status.last_reached then status.last_reached else checkpoint) + 1
  unfolding release
  release_bound p id checkpoint m info status r r' h ls lr l =
      let known = current_id p id checkpoint m info h in
      let from : ℕ =
        if leb checkpoint status.last_reached then status.last_reached else checkpoint in
      let step : release p id checkpoint m
          ≡ process_ready_queue (release_from p id from status r m) =
        rw (release, h, ls, lr) refl in
      (release_from_bound p id from status r m info known.0 known.1).1 r' (
        subst (λ (k : Moderator Point Real × Outcome). lookup p k.0.assignments.ranges ≡ some r')
          step l)
