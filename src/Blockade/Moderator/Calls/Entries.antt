-- ===== src/Blockade/Moderator/Calls/Entries.antt =====
-- What a participant has in the maps of the moderator, and what changes of its entries keep.
use rmf_traffic.Base.{ℕ, ◌≡◌, ◌≢◌, refl, sym, subst, Option, none, some, arith}
use rmf_traffic.Base.Assoc.{Assoc, lookup, insert}
use rmf_traffic.Blockade.Range.{ReservedRange}
use rmf_traffic.Blockade.Moderator.{
  ReservationInfo, Status, Moderator, Outcome, returned, thrown, out_of_fuel, process_ready_queue,
}
use rmf_traffic.Blockade.Moderator.Queue.{IsSettled, process_ready_queue_settles}
use rmf_traffic.Blockade.Moderator.Calls.{current}
use rmf_traffic.Blockade.Moderator.Calls.Consistent.{
  IsCurrent, queue-IsCurrent, Entry, IsConsistent, Updates, same_Updates, insert-Updates,
  updated-IsConsistent, queue-IsConsistent,
}

-- A map that keeps its entry of p
kept_Updates :
    {V : Type 0}
    → (p : ℕ) (v : V) (old new : Assoc V) → lookup p old ≡ some v
    → new ≡ old
    → Updates p (some v) old new
kept_Updates p v old new l e =
    subst (λ n. Updates p (some v) old n) (sym e)
      (subst (λ o. Updates p o old old) l (same_Updates p old))

new_Updates :
    {V : Type 0}
    → (p : ℕ) (v : V) (old new : Assoc V) → new ≡ insert p v old
    → Updates p (some v) old new
new_Updates p v old new e = subst (λ n. Updates p (some v) old n) (sym e) (insert-Updates p v old)

module _ {Point Real : Type 0} where
  -- A call ends, in a moderator whose maps are in step.
  abbrev pub IsGood : Moderator Point Real × Outcome → Type 0
  IsGood r = IsConsistent r.0 × IsCurrent r.0 × (r.1 ≢ out_of_fuel)

  settled_fuel : (r : Moderator Point Real × Outcome) → IsSettled r → r.1 ≢ out_of_fuel
  settled_fuel (m, returned) s = ground arith
  settled_fuel (m, thrown) s = ground arith
  settled_fuel (m, out_of_fuel) s = absurd s

  pub processed :
      (m : Moderator Point Real) → IsConsistent m → IsCurrent m → IsGood (process_ready_queue m)
  processed m h k = (
    queue-IsConsistent m h,
    queue-IsCurrent m k,
    settled_fuel (process_ready_queue m) (process_ready_queue_settles m),
  )

  -- What a participant with a reservation has
  abbrev pub Present : Moderator Point Real → ℕ → ReservationInfo Point Real → Type 0
  Present m p info =
      (status : Status) × (r : ReservedRange) × (lookup p m.statuses ≡ some status)
      × (lookup p m.assignments.ranges ≡ some r)
      × Entry (some info) (some status) (some r)

  pub present :
      (m : Moderator Point Real) (p : ℕ) (info : ReservationInfo Point Real)
      → IsConsistent m
      → lookup p m.last_known_reservation ≡ some info
      → Present m p info
  present m p info h l =
      go (lookup p m.statuses) (lookup p m.assignments.ranges) refl refl
        (subst (λ o. Entry o (lookup p m.statuses) (lookup p m.assignments.ranges)) l (h p))
    where
      go :
          (b : Option Status) (c : Option ReservedRange)
          → lookup p m.statuses ≡ b
          → lookup p m.assignments.ranges ≡ c
          → Entry (some info) b c
          → Present m p info
      go none c eb ec x = absurd x
      go (some b) none eb ec x = absurd x
      go (some b) (some c) eb ec x = (b, c, eb, ec, x)

  pub current_known :
      (p id c : ℕ) (m : Moderator Point Real) (info : ReservationInfo Point Real)
      → current p id c m ≡ some info
      → lookup p m.last_known_reservation ≡ some info
  unfolding current
  current_known p id c m info h = ground (arith, h)

  -- New entries of a participant in the statuses and the ranges
  pub replaced-IsConsistent :
      (m m' : Moderator Point Real) (p : ℕ) (info : ReservationInfo Point Real) (status : Status)
      (r : ReservedRange)
      → IsConsistent m
      → lookup p m.last_known_reservation ≡ some info
      → m'.last_known_reservation ≡ m.last_known_reservation
      → m'.statuses ≡ insert p status m.statuses
      → m'.assignments.ranges ≡ insert p r m.assignments.ranges
      → Entry (some info) (some status) (some r)
      → IsConsistent m'
  replaced-IsConsistent m m' p info status r h l ek es er e =
      updated-IsConsistent m m' p (some info) (some status) (some r)
        (kept_Updates p info m.last_known_reservation m'.last_known_reservation l ek)
        (new_Updates p status m.statuses m'.statuses es)
        (new_Updates p r m.assignments.ranges m'.assignments.ranges er) e h

  -- A new status, where the range stays
  pub restated-IsConsistent :
      (m m' : Moderator Point Real) (p : ℕ) (info : ReservationInfo Point Real) (status : Status)
      (r : ReservedRange)
      → IsConsistent m
      → lookup p m.last_known_reservation ≡ some info
      → lookup p m.assignments.ranges ≡ some r
      → m'.last_known_reservation ≡ m.last_known_reservation
      → m'.statuses ≡ insert p status m.statuses
      → m'.assignments.ranges ≡ m.assignments.ranges
      → Entry (some info) (some status) (some r)
      → IsConsistent m'
  restated-IsConsistent m m' p info status r h l lr ek es er e =
      updated-IsConsistent m m' p (some info) (some status) (some r)
        (kept_Updates p info m.last_known_reservation m'.last_known_reservation l ek)
        (new_Updates p status m.statuses m'.statuses es)
        (kept_Updates p r m.assignments.ranges m'.assignments.ranges lr er) e h
