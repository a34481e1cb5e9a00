-- ===== src/Blockade/Participant/Told.antt =====
-- What the moderator has for a participant after the calls that the participant can make.
use rmf_traffic.Base.{
  ℕ, ◌+◌, ◌-◌, ◌≤◌, ◌<◌, ◌≡◌, refl, sym, subst, inl, inr, true, false, ◌&&◌, not, Option, none,
  some, [], ◌∷◌, ◌++◌, length, ltb, leb, arith, Option-cases, Bool-cases, ◌==◌, if◌then◌else◌,
}
use rmf_traffic.Base.Assoc.{lookup, insert, lookup-insert}
use rmf_traffic.Blockade.Range.{ReservedRange}
use rmf_traffic.Blockade.Moderator.{
  ReservationInfo, ReadyInfo, Status, Moderator, Outcome, returned, thrown, ReadyStatus, skip,
  incomplete, finished, assign, check_reservation, process_ready_queue,
}
use rmf_traffic.Blockade.Moderator.Keeps.{process_ready_queue_keeps}
use rmf_traffic.Blockade.Moderator.Reserve.{Granted, Answer, check_reservation-Answer}
use rmf_traffic.Blockade.Moderator.Calls.{
  is_at_most, modify, current, ready, release_from, release, reached_at, clamp, reached,
}
use rmf_traffic.Blockade.Moderator.Calls.Consistent.{All-unit}

module _ {Point Real : Type 0} where
  -- The checks of the queue leave the reservations and the statuses alone.
  abbrev pub Keeps : Moderator Point Real → Moderator Point Real → Type 0
  Keeps m m' = (m'.statuses ≡ m.statuses) × (m'.last_known_reservation ≡ m.last_known_reservation)

  checked-Keeps :
      (n : Moderator Point Real) (x : ReadyInfo) (m m' : Moderator Point Real) (st : ReadyStatus)
      → check_reservation x m ≡ some (m', st)
      → Keeps n m
      → Keeps n m'
  checked-Keeps n x m m' st e h =
      (elim st as (λ b. Answer x m m' b → Keeps n m') [
        | skip ↦ λ q. kept q
        | incomplete ↦ λ g. granted g
        | finished ↦ elim [ inl q ↦ kept q | inr g ↦ granted g ]
      ])
        (check_reservation-Answer x m m' st e)
    where
      kept : m' ≡ m → Keeps n m'
      kept q = subst (λ (k : Moderator Point Real). Keeps n k) (sym q) h

      granted : Granted x m m' → Keeps n m'
      granted (r, e, l, a, b, q, best) = subst (λ (k : Moderator Point Real). Keeps n k) (sym q) h

  queue-Keeps : (m : Moderator Point Real) → Keeps m (process_ready_queue m).0
  queue-Keeps m =
      process_ready_queue_keeps (λ x. Unit {0}) (λ k. Keeps m k)
        (λ x k k' st t e c. checked-Keeps m x k k' st e c) (λ k q c. c) m (All-unit m.ready_queue)
        (refl, refl)

  -- The status and the reservation of p, as the participant and the moderator see them
  abbrev pub Has : Moderator Point Real → ℕ → ReservationInfo Point Real → Option ℕ → ℕ → Type 0
  Has m p info c low =
      (lookup p m.last_known_reservation ≡ some info)
      × (st : Status) × (lookup p m.statuses ≡ some st)
      × (st.last_ready ≡ c)
      × (st.last_reached ≤ low)

  Has-process :
      (m : Moderator Point Real) (p : ℕ) (info : ReservationInfo Point Real) (c : Option ℕ)
      (low : ℕ)
      → Has m p info c low
      → Has (process_ready_queue m).0 p info c low
  Has-process m p info c low (l, st, s, e, b) =
      let k = queue-Keeps m in
      (
        subst (λ n. lookup p n ≡ some info) (sym k.1) l,
        st,
        subst (λ n. lookup p n ≡ some st) (sym k.0) s,
        e,
        b,
      )

  pub ready_tells :
      (m : Moderator Point Real) (p c : ℕ) (info : ReservationInfo Point Real) (st : Status)
      → lookup p m.last_known_reservation ≡ some info
      → lookup p m.statuses ≡ some st
      → c + 1 < length info.reservation.path
      → is_at_most c st.last_ready ≡ false
      → Has (ready p info.id c m).0 p info (some c) st.last_reached
  unfolding ready current
  ready_tells m p c info st l s b n =
      let m' : Moderator Point Real = record m {
        statuses = insert p (record st { last_ready = some c }) m.statuses;
        ready_queue =
            m.ready_queue
            ++ record { participant_id = p; reservation_id = info.id; checkpoint = c } ∷ [];
      } in
      let step : ready p info.id c m ≡ process_ready_queue m' = ground (arith, l, s, b, n) in
      subst (λ (r : Moderator Point Real × Outcome). Has r.0 p info (some c) st.last_reached)
        (sym step)
        (Has-process m' p info (some c) st.last_reached (
          l,
          record st { last_ready = some c },
          ground (arith, lookup-insert p p (record st { last_ready = some c }) m.statuses),
          refl,
          omega arith,
        ))

  pub release_tells :
      (m : Moderator Point Real) (p c : ℕ) (info : ReservationInfo Point Real) (st : Status)
      (r : ReservedRange)
      → lookup p m.last_known_reservation ≡ some info
      → lookup p m.statuses ≡ some st
      → lookup p m.assignments.ranges ≡ some r
      → c + 2 < length info.reservation.path
      → st.last_reached ≤ c + 1
      → Has (release p info.id (c + 1) m).0 p info (some c) st.last_reached
  unfolding release current release_from
  release_tells m p c info st r l s lr b low =
      let from : ℕ = if leb (c + 1) st.last_reached then st.last_reached else c + 1 in
      let same : from ≡ c + 1 = ground (arith, low) in
      let m' : Moderator Point Real = release_from p info.id from st r m in
      let st' : Status = record st {
        last_ready = (if ltb 0 from then some (from - 1) else none);
      } in
      let guarded : current p info.id (c + 1) m ≡ some info = ground (arith, l, b) in
      let step : release p info.id (c + 1) m ≡ process_ready_queue m' =
        rw (release, guarded, s, lr) refl in
      subst (λ (k : Moderator Point Real × Outcome). Has k.0 p info (some c) st.last_reached)
        (sym step)
        (Has-process m' p info (some c) st.last_reached (
          l,
          st',
          ground (arith, lookup-insert p p st' m.statuses),
          ground (arith, same),
          omega arith,
        ))

  abbrev pub Tells : Moderator Point Real → ℕ → ReservationInfo Point Real → Option ℕ → Type 0
  Tells m p info c =
      (lookup p m.last_known_reservation ≡ some info)
      × (st : Status) × (lookup p m.statuses ≡ some st)
      × (st.last_ready ≡ c)

  Tells-process :
      (m : Moderator Point Real) (p : ℕ) (info : ReservationInfo Point Real) (c : Option ℕ)
      → Tells m p info c
      → Tells (process_ready_queue m).0 p info c
  Tells-process m p info c (l, st, s, e) =
      let k = queue-Keeps m in
      (
        subst (λ n. lookup p n ≡ some info) (sym k.1) l,
        st,
        subst (λ n. lookup p n ≡ some st) (sym k.0) s,
        e,
      )

  reached_at-Tells :
      (m : Moderator Point Real) (p at : ℕ) (info : ReservationInfo Point Real) (c : Option ℕ)
      (st : Status) (r : ReservedRange)
      → lookup p m.last_known_reservation ≡ some info
      → st.last_ready ≡ c
      → Tells (reached_at p at st r m).0 p info c
  unfolding reached_at
  reached_at-Tells m p at info c st r l e = elim (Bool-cases (ltb r.end at)) [
    | inl b ↦
        let new : Status = record st { critical_error = true } in
        rw b (l, new, ground (arith, lookup-insert p p new m.statuses), e)
    | inr b ↦
        let new : Status = record st { last_reached = at } in
        let m' : Moderator Point Real = record m {
          statuses = insert p new m.statuses;
          assignments = assign p (record r { begin = at }) m.assignments;
        } in
        let step : reached_at p at st r m ≡ process_ready_queue m' = rw (reached_at, b) refl in
        subst (λ (k : Moderator Point Real × Outcome). Tells k.0 p info c) (sym step)
          (Tells-process m' p info c (l, new, ground (arith, lookup-insert p p new m.statuses), e))
  ]

  -- reached leaves what is ready alone.
  pub reached-Tells :
      (m : Moderator Point Real) (p id d : ℕ) (info : ReservationInfo Point Real) (c : Option ℕ)
      → Tells m p info c
      → Tells (reached p id d m).0 p info c
  unfolding reached
  reached-Tells m p id d info c (l, st, s, e) =
      let at : ℕ = clamp (length info.reservation.path) d in
      elim (Bool-cases ((info.id == id) && not (leb at st.last_reached))) [
        | inr b ↦
            let step : reached p id d m ≡ (m, returned) = ground (arith, l, s, b) in
            subst (λ (k : Moderator Point Real × Outcome). Tells k.0 p info c) (sym step)
              (l, st, s, e)
        | inl b ↦ elim (Option-cases (lookup p m.assignments.ranges)) [
          | inl n ↦
              let m' : Moderator Point Real = record m { assignments = modify m.assignments } in
              let step : reached p id d m ≡ (m', thrown) = ground (arith, l, s, b, n) in
              subst (λ (k : Moderator Point Real × Outcome). Tells k.0 p info c) (sym step)
                (l, st, s, e)
          | inr (r, n) ↦
              let step : reached p id d m ≡ reached_at p at st r m = ground (arith, l, s, b, n) in
              subst (λ (k : Moderator Point Real × Outcome). Tells k.0 p info c) (sym step)
                (reached_at-Tells m p at info c st r l e)
        ]
      ]
