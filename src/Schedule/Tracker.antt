-- ===== src/Schedule/Tracker.antt =====
-- schedule/InconsistencyTracker.hpp and .cpp: which versions of a participant's itinerary changes
-- are missing, and the changes that wait for them. A version is a uint64_t and wraps.
pub mod Gaps
pub mod Newer
pub mod Above
pub mod Known
pub mod Check
use rmf_traffic.Base.{
  ℕ, suc, ◌+◌, ◌-◌, ◌%◌, Bool, true, false, Option, none, some, List, [], ◌∷◌, is_empty, ltb, ◌==◌,
  if◌then◌else◌,
}
use rmf_traffic.Base.Modular.{Modular, word}

abbrev pub next : ℕ → ℕ
next v = (v + 1) % word

abbrev pub prev : ℕ → ℕ
prev v = (v + word - 1) % word

-- Inconsistencies::Ranges::Range: the missing versions from lower to upper, both included.
pub record Range : Type 0 where
  pub lower : ℕ
  pub upper : ℕ

-- std::map<ItineraryVersion, std::function<void()>>, in the order of std::less. A callback is a
-- value of C; `none` is the nullptr that stands for it until the ticket is set.
abbrev pub Changes {ℓ} : Type ℓ → Type ℓ
Changes C = List (ℕ × Option C)

pub record Tracker {ℓ} (C : Type ℓ) : Type ℓ where
  pub ranges : List Range
  pub last_known_version : ℕ
  pub expected_version : ℕ
  pub changes : Changes C
  pub ready : Bool

module _ {ℓ} {C : Type ℓ} where
  unfoldable pub init : ℕ → Tracker C
  init last_known = record {
    ranges = [];
    last_known_version = last_known;
    expected_version = next last_known;
    changes = [];
    ready = false;
  }

  unfoldable pub has_change : ℕ → Changes C → Bool
  has_change v [] = false
  has_change v ((k, c) ∷ cs) = if k == v then true else has_change v cs

  -- _changes.insert: an entry that is there stays.
  unfoldable pub insert_change : ℕ → Option C → Changes C → Changes C
  insert_change v x [] = (v, x) ∷ []
  insert_change v x ((k, c) ∷ cs) =
      if ltb k v
      then (k, c) ∷ insert_change v x cs
      else if k == v
      then (k, c) ∷ cs
      else (v, x) ∷ (k, c) ∷ cs

  -- `while (c_old->first < version) _changes.erase(c_old++)`
  pub erase_older : ℕ → Changes C → Changes C
  erase_older v [] = []
  erase_older v ((k, c) ∷ cs) = elim (ltb k v) [ true ↦ erase_older v cs | false ↦ (k, c) ∷ cs ]

  -- `(++_changes.rbegin())->first`; the code asserts that there are two entries.
  pub second_highest : Changes C → ℕ
  second_highest [] = 0
  second_highest (x ∷ []) = 0
  second_highest (x ∷ y ∷ []) = x.0
  second_highest (x ∷ y ∷ z ∷ cs) = second_highest (y ∷ z ∷ cs)

-- std::set<Range, RangeLess>, in its order. An iterator stands for the entry it points at.
module _ (m : Modular) where
  range_less : Range → Range → Bool
  range_less a b = m.less_than a.upper b.upper

  -- _ranges.lower_bound(Range{version, version})
  pub lower_bound : ℕ → List Range → Option Range
  unfolding range_less
  lower_bound v [] = none
  lower_bound v (r ∷ rs) =
      if range_less r (record { lower = v; upper = v }) then lower_bound v rs else some r

  -- _ranges.insert: an equivalent entry that is there stays.
  pub insert_range : Range → List Range → List Range
  unfolding range_less
  insert_range r [] = r ∷ []
  insert_range r (x ∷ xs) =
      if range_less x r
      then x ∷ insert_range r xs
      else if range_less r x
      then r ∷ x ∷ xs
      else x ∷ xs

-- _ranges.erase(range_it)
erase_range : Range → List Range → List Range
erase_range r [] = []
erase_range r (x ∷ xs) = if x.upper == r.upper then xs else x ∷ erase_range r xs

-- _ranges.erase(_ranges.begin(), ++range_it)
pub erase_through : Range → List Range → List Range
erase_through r [] = []
erase_through r (x ∷ xs) = if x.upper == r.upper then xs else erase_through r xs

module _ (m : Modular) where
  -- The ranges after a change that lies in the range r.
  pub narrow : ℕ → Range → List Range → List Range
  unfolding insert_range erase_range
  narrow version r rs =
      if version == r.upper
      then if r.lower == version
        then erase_range r rs
        else erase_range r (insert_range m (record { lower = r.lower; upper = prev version }) rs)
      else if r.lower == version
      then insert_range m (record { lower = next version; upper = r.upper }) (erase_range r rs)
      else insert_range m (record { lower = next version; upper = r.upper })
          (insert_range m (record { lower = r.lower; upper = prev version }) (erase_range r rs))

  -- The ranges after a nullifying change that lies in the range r.
  pub narrow_nullifying : ℕ → Range → List Range → List Range
  unfolding insert_range erase_through
  narrow_nullifying version r rs =
      if version == r.upper
      then erase_through r rs
      else insert_range m (record { lower = next version; upper = r.upper }) (erase_through r rs)

  -- The ranges after a change above all missing versions; the change is in cs already.
  pub extend_ranges {ℓ} : {C : Type ℓ} → ℕ → Changes C → List Range → List Range
  unfolding insert_range second_highest
  extend_ranges version cs rs =
      let lower = next (second_highest cs) in
      let upper = prev version in
      if m.less_than_or_equal lower upper
      then insert_range m (record { lower = lower; upper = upper }) rs
      else rs
