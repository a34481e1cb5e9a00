-- ===== src/Schedule/Tracker/Check/Sound.antt =====
-- InconsistencyTracker::check: the ranges beside the gaps of the recorded changes, branch by branch.
use rmf_traffic.Base.{
  ℕ, suc, ◌≤◌, ◌<◌, ◌≡◌, refl, ◌⊎◌, inl, inr, Bool, true, false, Option, none, some, [], ◌∷◌,
  is_empty, if◌then◌else◌, arith, max, Bool-cases, Option-cases, List,
}
use rmf_traffic.Base.Modular.{Modular, half, less_than-ltb}
use rmf_traffic.Schedule.Tracker.{
  Tracker, Changes, Range, init, has_change, insert_change, lower_bound, insert_range,
  narrow_nullifying, extend_ranges, next, erase_through, prev, second_highest,
}
use rmf_traffic.Schedule.Tracker.Gaps.{
  gaps, next_of, Rises, lower_bound-none, narrow-gaps, gaps_closed, insert_change-Rises,
  next_of-insert_change, next_of-not-has,
}
use rmf_traffic.Schedule.Tracker.Newer.{
  newer, erase_older-insert_change, newer-Rises, next_of-newer, narrow_nullifying-gaps,
}
use rmf_traffic.Schedule.Tracker.Above.{extend_ranges-gaps}
use rmf_traffic.Schedule.Tracker.Check.{
  check, check_consistent, check_above, check_within, check_inconsistent, record_change, check_seen,
  see_version,
}

-- The ranges are exactly the versions that lie below a recorded change and are not recorded.
pub record IsExact {ℓ} {C : Type ℓ} (t : Tracker C) : Type 0 where
  pub exact : t.ranges ≡ gaps t.expected_version t.changes
  pub rising : Rises t.expected_version t.changes
  pub latest : next_of t.expected_version t.changes ≡ suc t.last_known_version
  pub bounded : suc t.last_known_version < half

-- Between two calls: changes wait only while a version is missing.
pub record IsSound {ℓ} {C : Type ℓ} (t : Tracker C) : Type 0 where
  pub tracks : IsExact t
  pub open tracks use *
  pub not_ready : t.ready ≡ false
  pub settled : is_empty t.ranges ≡ true → is_empty t.changes ≡ true

module _ {ℓ} {C : Type ℓ} where
  -- The recorded changes after a check that issues a ticket.
  unfoldable pub recorded : Tracker C → ℕ → Bool → Changes C
  recorded t v nullifying =
      if has_change v t.changes
      then t.changes
      else if nullifying
      then (v, none) ∷ newer v t.changes
      else insert_change v none t.changes

  -- What a check of version v answers: no ticket, and everything up to v is accepted; or a ticket
  -- for v, and the changes are ready to be applied exactly when nothing is missing.
  pub record Accepts (t : Tracker C) (v : ℕ) (nullifying : Bool) (t' : Tracker C)
      (ticket : Option ℕ) : Type ℓ where
    pub no_ticket : ticket ≡ none
    pub in_order : (nullifying ≡ true) ⊎ ((v ≡ t.expected_version) × (t.changes ≡ []))
    pub nothing_waits : t'.changes ≡ []
    pub still_idle : t'.ready ≡ false
    pub moves_on : t'.expected_version ≡ suc v

  pub record Waits (t : Tracker C) (v : ℕ) (nullifying : Bool) (t' : Tracker C) (ticket : Option ℕ)
      : Type ℓ where
    pub has_ticket : ticket ≡ some v
    pub records : t'.changes ≡ recorded t v nullifying
    pub expects : t'.expected_version ≡ (
        if has_change v t.changes
        then t.expected_version
        else if nullifying
        then v
        else t.expected_version)
    pub ready_if_complete : t'.ready ≡ is_empty t'.ranges

-- A participant registers with no version missing.
pub init-IsSound {ℓ} : {C : Type ℓ} (last : ℕ) → suc last < half → IsSound (init {C = C} last)
unfolding init gaps next_of
init-IsSound last h = record {
  tracks = record { exact = refl; rising = tt; latest = omega arith; bounded = h };
  not_ready = refl;
  settled = λ _. refl;
}

module _ (m : Modular) where
  insert_range_nonempty : (r : Range) (rs : List Range) → is_empty (insert_range m r rs) ≡ false
  unfolding insert_range
  insert_range_nonempty r [] = refl
  insert_range_nonempty r (x ∷ rs) = ground arith

  narrow_nullifying_closed :
      (v : ℕ) (r : Range) (rs : List Range)
      → is_empty (narrow_nullifying m v r rs) ≡ true
      → v ≡ r.upper
  unfolding narrow_nullifying
  narrow_nullifying_closed v r rs h = ground (
    arith,
    insert_range_nonempty (record { lower = next v; upper = r.upper }) (erase_through r rs),
  )

  extend_ranges_nonempty {ℓ} :
      {C : Type ℓ} (v : ℕ) (cs : Changes C) (rs : List Range)
      → is_empty rs ≡ false
      → is_empty (extend_ranges m v cs rs) ≡ false
  unfolding extend_ranges
  extend_ranges_nonempty v cs rs h = ground (
    arith,
    h,
    insert_range_nonempty (record { lower = next (second_highest cs); upper = prev v }) rs,
  )

-- The answer to a check of version v, in terms of the tracker before it.
abbrev pub Answer : {C : Type 0} → Tracker C → ℕ → Bool → Tracker C × Option ℕ → Type 0
Answer t v nullifying (t', ticket) =
    IsExact t'
    × (t'.last_known_version ≡ max t.last_known_version v)
    × (Accepts t v nullifying t' ticket ⊎ Waits t v nullifying t' ticket)

-- The tracker after a check, in terms of the tracker before.
module _ {C : Type 0} (m : Modular) (t : Tracker C) (v : ℕ) (s : IsSound t)
    (old : t.expected_version ≤ v) (low : suc v < half) where
  abbrev latest_of : Tracker C
  latest_of = record t { last_known_version = max t.last_known_version v }

  check_consistent_lem :
      (nullifying : Bool)
      → is_empty t.ranges ≡ true
      → Answer t v nullifying (check_consistent m latest_of v nullifying)
  unfolding check_consistent gaps next_of recorded insert_range insert_change has_change
  check_consistent_lem nullifying e = ground (arith, s.settled e, s.exact, s.latest)

  above_all :
      has_change v t.changes ≡ false → lower_bound m v t.ranges ≡ none → t.last_known_version < v
  above_all f e = omega (
    arith,
    s.latest,
    lower_bound-none m v t.expected_version t.changes s.rising old (omega arith) f
        (rw (← s.exact) e),
  )

  check_above_lem :
      (nullifying : Bool)
      → is_empty t.ranges ≡ false
      → has_change v t.changes ≡ false
      → lower_bound m v t.ranges ≡ none
      → Answer t v nullifying (check_above m (record_change latest_of v nullifying) v nullifying)
  unfolding check_above record_change gaps next_of recorded
  check_above_lem true n f e = (
    record {
      exact = refl;
      rising = tt;
      latest = omega (arith, above_all f e);
      bounded = omega arith;
    },
    refl,
    inl (record {
      no_ticket = refl;
      in_order = inl refl;
      nothing_waits = refl;
      still_idle = s.not_ready;
      moves_on = omega arith;
    }),
  )
  check_above_lem false n f e = ground (
    arith,
    s.exact,
    above_all f e,
    extend_ranges-gaps m v t.expected_version none t.changes,
    extend_ranges_nonempty m v (insert_change v none t.changes) t.ranges n,
    insert_change-Rises v t.expected_version none t.changes,
    next_of-insert_change v t.expected_version none t.changes,
  )

  check_within_lem :
      (nullifying : Bool) (r : Range)
      → is_empty t.ranges ≡ false
      → has_change v t.changes ≡ false
      → lower_bound m v t.ranges ≡ some r
      → Answer t v nullifying (check_within m (record_change latest_of v nullifying) v nullifying r)
  unfolding check_within record_change recorded gaps next_of
  check_within_lem true r n f e = ground (
    arith,
    s.exact,
    erase_older-insert_change v t.expected_version none t.changes,
    newer-Rises v t.expected_version t.changes,
    next_of-newer v t.expected_version t.changes,
    narrow_nullifying-gaps m v t.expected_version t.changes r,
    narrow_nullifying_closed m v r t.ranges,
  )
  check_within_lem false r n f e = ground (
    arith,
    s.exact,
    narrow-gaps m v t.expected_version none t.changes r,
    gaps_closed m v t.expected_version none t.changes r,
    insert_change-Rises v t.expected_version none t.changes,
    next_of-insert_change v t.expected_version none t.changes,
  )

  check_repeated :
      (nullifying : Bool)
      → is_empty t.ranges ≡ false
      → has_change v t.changes ≡ true
      → Answer t v nullifying (latest_of, some v)
  unfolding recorded
  check_repeated nullifying n f =
      ground (arith, s.exact, s.latest, next_of-not-has t.expected_version v t.changes s.rising)

  check_inconsistent_lem :
      (nullifying : Bool)
      → is_empty t.ranges ≡ false
      → Answer t v nullifying (check_inconsistent m latest_of v nullifying)
  unfolding check_inconsistent
  check_inconsistent_lem nullifying n = elim (Bool-cases (has_change v t.changes)) [
    | inl f ↦ rw f (check_repeated nullifying n f)
    | inr f ↦ rw f (elim (Option-cases (lower_bound m v t.ranges)) [
      | inl e ↦ rw e (check_above_lem nullifying n f e)
      | inr (r, e) ↦ rw e (check_within_lem nullifying r n f e)
    ])
  ]

  check_seen_lem : (nullifying : Bool) → Answer t v nullifying (check_seen m latest_of v nullifying)
  unfolding check_seen
  check_seen_lem nullifying = elim (Bool-cases (is_empty t.ranges)) [
    | inl e ↦ rw e (check_consistent_lem nullifying e)
    | inr n ↦ rw n (check_inconsistent_lem nullifying n)
  ]

  see_version-max : see_version m t v ≡ latest_of
  unfolding see_version
  see_version-max = ground (arith, less_than-ltb m t.last_known_version v)

  -- For every version that is not older than the expected one, the ranges stay exact: they are the
  -- versions below a recorded change that are not recorded themselves. The last known version is
  -- the highest version seen. The check either accepts the change, with nothing left to wait for,
  -- or records it and issues a ticket.
  pub check_exact : (nullifying : Bool) → Answer t v nullifying (check m t v nullifying)
  unfolding check
  check_exact nullifying = rw see_version-max (check_seen_lem nullifying)
