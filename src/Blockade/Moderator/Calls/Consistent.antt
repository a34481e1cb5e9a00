-- ===== src/Blockade/Moderator/Calls/Consistent.antt =====
-- What the maps of the moderator keep in step: a participant is in all of them or in none, and its
-- range starts where it is and does not end before that.
use rmf_traffic.Base.{
  ℕ, ◌≤◌, ◌<◌, ◌≡◌, sym, subst, inl, inr, Option, none, some, List, [], ◌∷◌, All, arith, Bool-cases,
  ◌==◌, if◌then◌else◌,
}
use rmf_traffic.Base.Assoc.{Assoc, lookup, insert, erase, lookup-insert, lookup-erase}
use rmf_traffic.Blockade.Range.{ReservedRange}
use rmf_traffic.Blockade.Conflicts.Final.{compute_final_ShouldGo_constraints}
use rmf_traffic.Blockade.Moderator.{
  ReservationInfo, ReadyInfo, Status, Moderator, ReadyStatus, skip, incomplete, finished, assign,
  check_reservation, process_ready_queue,
}
use rmf_traffic.Blockade.Moderator.Keeps.{process_ready_queue_keeps}
use rmf_traffic.Blockade.Moderator.Reserve.{Granted, Answer, check_reservation-Answer}

-- A map where only the entry of p has changed
abbrev pub Updates : {V : Type 0} → ℕ → Option V → Assoc V → Assoc V → Type 0
Updates p v old new = (q : ℕ) → lookup q new ≡ (if p == q then v else lookup q old)

module _ {V : Type 0} where
  pub same_Updates : (p : ℕ) (m : Assoc V) → Updates p (lookup p m) m m
  same_Updates p m q = elim (Bool-cases (p == q)) [
    | inl e ↦
        let here : p ≡ q = ground (arith, e) in
        subst (λ (n : ℕ). lookup q m ≡ (if p == q then lookup n m else lookup q m)) (sym here)
          (ground (arith, e))
    | inr e ↦ ground (arith, e)
  ]

  pub insert-Updates : (p : ℕ) (v : V) (m : Assoc V) → Updates p (some v) m (insert p v m)
  insert-Updates p v m q = lookup-insert q p v m

  pub erase-Updates : (p : ℕ) (m : Assoc V) → Updates p none m (erase p m)
  erase-Updates p m q = lookup-erase q p m

pub All-unit : (xs : List ReadyInfo) → All (λ x. Unit {0}) xs
All-unit [] = tt
All-unit (x ∷ xs) = (tt, All-unit xs)

module _ {Point Real : Type 0} where
  -- The entries of a participant in the three maps
  abbrev pub Entry :
      Option (ReservationInfo Point Real) → Option Status → Option ReservedRange → Type 0
  Entry none none none = Unit
  Entry (some info) (some status) (some r) =
      (status.reservation ≡ info.id) × (r.begin ≡ status.last_reached) × (r.begin ≤ r.end)
  Entry none none (some r) = ⊥
  Entry none (some status) r = ⊥
  Entry (some info) none r = ⊥
  Entry (some info) (some status) none = ⊥

  wider-Entry :
      (a : Option (ReservationInfo Point Real)) (b : Option Status) (r : ReservedRange) (e : ℕ)
      → r.end < e
      → Entry a b (some r)
      → Entry a b (some (record r { end = e }))
  wider-Entry none none r e l x = absurd x
  wider-Entry none (some b) r e l x = absurd x
  wider-Entry (some a) none r e l x = absurd x
  wider-Entry (some a) (some b) r e l (x, y, z) = (x, y, omega arith)

  abbrev pub IsConsistent : Moderator Point Real → Type 0
  IsConsistent m =
      (p : ℕ)
      → Entry (lookup p m.last_known_reservation) (lookup p m.statuses)
          (lookup p m.assignments.ranges)

  pub updated-IsConsistent :
      (m m' : Moderator Point Real) (p : ℕ) (a : Option (ReservationInfo Point Real))
      (b : Option Status) (c : Option ReservedRange)
      → Updates p a m.last_known_reservation m'.last_known_reservation
      → Updates p b m.statuses m'.statuses
      → Updates p c m.assignments.ranges m'.assignments.ranges
      → Entry a b c
      → IsConsistent m
      → IsConsistent m'
  updated-IsConsistent m m' p a b c ua ub uc e h q = elim (Bool-cases (p == q)) [
    | inl s ↦
        let ka : lookup q m'.last_known_reservation ≡ a = ground (arith, ua q, s) in
        let kb : lookup q m'.statuses ≡ b = ground (arith, ub q, s) in
        let kc : lookup q m'.assignments.ranges ≡ c = ground (arith, uc q, s) in rw (ka, kb, kc) e
    | inr s ↦
        let ka : lookup q m'.last_known_reservation ≡ lookup q m.last_known_reservation =
          ground (arith, ua q, s) in
        let kb : lookup q m'.statuses ≡ lookup q m.statuses = ground (arith, ub q, s) in
        let kc : lookup q m'.assignments.ranges ≡ lookup q m.assignments.ranges =
          ground (arith, uc q, s) in
        rw (ka, kb, kc) (h q)
  ]

  Granted-IsConsistent :
      (x : ReadyInfo) (m m' : Moderator Point Real)
      → Granted x m m'
      → IsConsistent m
      → IsConsistent m'
  unfolding assign
  Granted-IsConsistent x m m' (r, e, l, a, b, q, best) h =
      subst (λ (k : Moderator Point Real). IsConsistent k) (sym q) wide
    where
      p : ℕ
      p = x.participant_id

      entry :
          Entry
            (lookup p m.last_known_reservation)
            (lookup p m.statuses)
            (some (record r { end = e }))
      entry =
          let old =
            subst (λ o. Entry (lookup p m.last_known_reservation) (lookup p m.statuses) o) l
              (h p) in
          wider-Entry (lookup p m.last_known_reservation) (lookup p m.statuses) r e a old

      wide : IsConsistent (record m { assignments = assign p (record r { end = e }) m.assignments })
      wide =
          updated-IsConsistent m
            (record m { assignments = assign p (record r { end = e }) m.assignments }) p
            (lookup p m.last_known_reservation) (lookup p m.statuses) (some (record r { end = e }))
            (same_Updates p m.last_known_reservation) (same_Updates p m.statuses)
            (insert-Updates p (record r { end = e }) m.assignments.ranges) entry h

  checked-IsConsistent :
      (x : ReadyInfo) (m m' : Moderator Point Real) (st : ReadyStatus)
      → check_reservation x m ≡ some (m', st)
      → IsConsistent m
      → IsConsistent m'
  checked-IsConsistent x m m' st e h =
      (elim st as (λ b. Answer x m m' b → IsConsistent m') [
        | skip ↦ λ q. kept q
        | incomplete ↦ λ g. Granted-IsConsistent x m m' g h
        | finished ↦ elim [ inl q ↦ kept q | inr g ↦ Granted-IsConsistent x m m' g h ]
      ])
        (check_reservation-Answer x m m' st e)
    where
      kept : m' ≡ m → IsConsistent m'
      kept q = subst (λ (k : Moderator Point Real). IsConsistent k) (sym q) h

  pub queue-IsConsistent :
      (m : Moderator Point Real) → IsConsistent m → IsConsistent (process_ready_queue m).0
  queue-IsConsistent m h =
      process_ready_queue_keeps (λ x. Unit {0}) (λ k. IsConsistent k)
        (λ x k k' st t e c. checked-IsConsistent x k k' st e c) (λ k q c. c) m
        (All-unit m.ready_queue) h

module _ {Point Real : Type 0} where
  -- The final constraints are those of the blockers and the alignments that are kept.
  abbrev pub IsCurrent : Moderator Point Real → Type 0
  IsCurrent m =
      m.final_constraints ≡ compute_final_ShouldGo_constraints m.peer_blockers m.peer_alignment

  checked-IsCurrent :
      (x : ReadyInfo) (m m' : Moderator Point Real) (st : ReadyStatus)
      → check_reservation x m ≡ some (m', st)
      → IsCurrent m
      → IsCurrent m'
  checked-IsCurrent x m m' st e h =
      (elim st as (λ b. Answer x m m' b → IsCurrent m') [
        | skip ↦ λ q. kept q
        | incomplete ↦ λ g. granted g
        | finished ↦ elim [ inl q ↦ kept q | inr g ↦ granted g ]
      ])
        (check_reservation-Answer x m m' st e)
    where
      kept : m' ≡ m → IsCurrent m'
      kept q = subst (λ (k : Moderator Point Real). IsCurrent k) (sym q) h

      granted : Granted x m m' → IsCurrent m'
      granted (r, e, l, a, b, q, best) = subst (λ (k : Moderator Point Real). IsCurrent k) (sym q) h

  pub queue-IsCurrent :
      (m : Moderator Point Real) → IsCurrent m → IsCurrent (process_ready_queue m).0
  queue-IsCurrent m h =
      process_ready_queue_keeps (λ x. Unit {0}) (λ k. IsCurrent k)
        (λ x k k' st t e c. checked-IsCurrent x k k' st e c) (λ k q c. c) m (All-unit m.ready_queue)
        h
