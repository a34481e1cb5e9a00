-- ===== src/Schedule/Tracker/Check.antt =====
-- InconsistencyTracker::check, the ticket that it may issue, and the destructor of the ticket.
pub mod Sound
pub mod Ticket
pub mod Recorded
use rmf_traffic.Base.{
  ℕ, ◌∷◌, Bool, true, ◌&&◌, Option, none, some, [], is_empty, ◌==◌, if◌then◌else◌,
}
use rmf_traffic.Base.Modular.{Modular}
use rmf_traffic.Schedule.Tracker.{
  Tracker, Changes, Range, next, prev, has_change, insert_change, erase_older, lower_bound,
  insert_range, narrow, narrow_nullifying, extend_ranges,
}

module _ {ℓ} {C : Type ℓ} where
  -- The entry for the version, and what a nullifying change makes of the older ones.
  pub record_change : Tracker C → ℕ → Bool → Tracker C
  record_change t version nullifying =
      let cs = insert_change version none t.changes in
      if nullifying
      then record t { changes = erase_older version cs; expected_version = version }
      else record t { changes = cs }

module _ {ℓ} {C : Type ℓ} (m : Modular) where
  -- A ticket is the version whose entry of _changes its callback is; none is the null pointer.
  -- No range is missing so far.
  pub check_consistent : Tracker C → ℕ → Bool → Tracker C × Option ℕ
  check_consistent t version nullifying =
      if nullifying
      then (record t { expected_version = next version }, none)
      else if version == t.expected_version
      then (record t { expected_version = next t.expected_version }, none)
      else (
        record t {
          ranges =
              insert_range m (record { lower = t.expected_version; upper = prev version }) t.ranges;
          changes = insert_change version none t.changes;
        },
        some version,
      )

  -- The version is above all missing ones; its entry is in _changes.
  pub check_above : Tracker C → ℕ → Bool → Tracker C × Option ℕ
  check_above t version nullifying =
      if nullifying
      then (record t { changes = []; ranges = []; expected_version = next version }, none)
      else (record t { ranges = extend_ranges m version t.changes t.ranges }, some version)

  -- The version lies in the range r; its entry is in _changes.
  pub check_within : Tracker C → ℕ → Bool → Range → Tracker C × Option ℕ
  check_within t version nullifying r =
      let kept = narrow m version r t.ranges in
      let kept_null = narrow_nullifying m version r t.ranges in
      if nullifying
      then (
        record t {
          ranges = kept_null;
          ready = if version == r.upper && is_empty kept_null then true else t.ready;
        },
        some version,
      )
      else (
        record t {
          ranges = kept;
          ready =
              if version == r.upper && (r.lower == version && is_empty kept) then true else t.ready;
        },
        some version,
      )

  -- Some versions are missing.
  pub check_inconsistent : Tracker C → ℕ → Bool → Tracker C × Option ℕ
  check_inconsistent t version nullifying =
      if has_change version t.changes
      then (t, some version)
      else elim (lower_bound m version t.ranges) [
        | none ↦ check_above (record_change t version nullifying) version nullifying
        | some r ↦ check_within (record_change t version nullifying) version nullifying r
      ]

  -- `if (modular(_last_known_version).less_than(version)) _last_known_version = version;`
  pub see_version : Tracker C → ℕ → Tracker C
  see_version t version = record t {
    last_known_version =
        if m.less_than t.last_known_version version then version else t.last_known_version;
  }

  -- The rest of check.
  pub check_seen : Tracker C → ℕ → Bool → Tracker C × Option ℕ
  check_seen t version nullifying =
      if is_empty t.ranges
      then check_consistent t version nullifying
      else check_inconsistent t version nullifying

  pub check : Tracker C → ℕ → Bool → Tracker C × Option ℕ
  check t version nullifying = check_seen (see_version t version) version nullifying

module _ {ℓ} {C : Type ℓ} where
  -- Ticket::set: the entry is there, and its callback is assigned.
  unfoldable pub set_callback : ℕ → C → Changes C → Changes C
  set_callback v c [] = []
  set_callback v c ((k, d) ∷ cs) = if k == v then (k, some c) ∷ cs else (k, d) ∷ set_callback v c cs
