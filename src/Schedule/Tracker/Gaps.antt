-- ===== src/Schedule/Tracker/Gaps.antt =====
-- The missing versions recomputed from the recorded changes, as a TODO of InconsistencyTracker.hpp
-- proposes, beside the incremental updates of the ranges.
use rmf_traffic.Base.{
  ℕ, suc, ◌-◌, ◌≤◌, ◌<◌, max, ◌≡◌, refl, false, Option, none, some, List, [], ◌∷◌, is_empty, true,
  arith, ltb, if◌then◌else◌,
}
use rmf_traffic.Base.Modular.{Modular, half, less_than-ltb}
use rmf_traffic.Schedule.Tracker.{
  Range, Changes, has_change, insert_change, lower_bound, insert_range, narrow,
}

module _ {ℓ} {C : Type ℓ} where
  -- The maximal intervals from e on, below the highest recorded version, that hold no change.
  unfoldable pub gaps : ℕ → Changes C → List Range
  gaps e [] = []
  gaps e ((k, c) ∷ cs) =
      let rest = gaps (suc k) cs in
      if ltb e k then record { lower = e; upper = k - 1 } ∷ rest else rest

  -- The version after the highest recorded one.
  unfoldable pub next_of : ℕ → Changes C → ℕ
  next_of e [] = e
  next_of e ((k, c) ∷ cs) = next_of (suc k) cs

  -- The versions rise from e on, and none has wrapped.
  abbrev pub Rises : ℕ → Changes C → Type 0
  Rises e [] = Unit {0}
  Rises e ((k, c) ∷ cs) = (e ≤ k) × (k < half) × Rises (suc k) cs

  pub le-next_of : (e : ℕ) (cs : Changes C) → Rises e cs → e ≤ next_of e cs
  unfolding next_of
  le-next_of e [] h = omega arith
  le-next_of e ((k, c) ∷ cs) h = omega (arith, le-next_of (suc k) cs h.2)

  -- A version at or above all recorded ones is not recorded.
  pub next_of-not-has :
      (e v : ℕ) (cs : Changes C) → Rises e cs → next_of e cs ≤ v → has_change v cs ≡ false
  unfolding next_of has_change
  next_of-not-has e v [] h b = refl
  next_of-not-has e v ((k, c) ∷ cs) h b =
      ground (arith, le-next_of (suc k) cs h.2, next_of-not-has (suc k) v cs h.2)

module _ (m : Modular) where
  -- A range below r and below v keeps its place.
  narrow-cons :
      (v : ℕ) (r x : Range) (rs : List Range)
      → x.upper < r.lower
      → r.lower ≤ v
      → v ≤ r.upper
      → r.upper < half
      → narrow m v r (x ∷ rs) ≡ x ∷ narrow m v r rs
  unfolding narrow
  narrow-cons v r x rs a b c d =
      ground (arith, less_than-ltb m x.upper r.upper, less_than-ltb m x.upper (v - 1))

module _ {ℓ} {C : Type ℓ} (m : Modular) where
  -- A range below all gaps goes to the front.
  pub insert_range-gaps :
      (r : Range) (e : ℕ) (cs : Changes C)
      → Rises e cs
      → r.upper < e
      → r.upper < half
      → insert_range m r (gaps e cs) ≡ r ∷ gaps e cs
  unfolding gaps insert_range
  insert_range-gaps r e [] h b u = refl
  insert_range-gaps r e ((k, c) ∷ cs) h b u = ground (
    arith,
    insert_range-gaps r (suc k) cs h.2,
    less_than-ltb m (k - 1) r.upper,
    less_than-ltb m r.upper (k - 1),
  )

  -- Where no range reaches v, either v is recorded or it is above all recorded versions.
  pub lower_bound-none :
      (v e : ℕ) (cs : Changes C)
      → Rises e cs
      → e ≤ v
      → v < half
      → has_change v cs ≡ false
      → lower_bound m v (gaps e cs) ≡ none
      → next_of e cs ≤ v
  unfolding gaps lower_bound has_change next_of
  lower_bound-none v e [] h b u f l = omega arith
  lower_bound-none v e ((k, c) ∷ cs) h b u f l =
      ground (arith, less_than-ltb m (k - 1) v, lower_bound-none v (suc k) cs h.2)

  -- A range that is found holds v, unless v is recorded.
  pub lower_bound-some :
      (v e : ℕ) (cs : Changes C) (r : Range)
      → Rises e cs
      → e ≤ v
      → v < half
      → has_change v cs ≡ false
      → lower_bound m v (gaps e cs) ≡ some r
      → (e ≤ r.lower) × (r.lower ≤ v) × (v ≤ r.upper) × (r.upper < half)
  unfolding gaps lower_bound has_change
  lower_bound-some v e [] r h b u f l = absurd (cc)
  lower_bound-some v e ((k, c) ∷ cs) r h b u f l =
      ground (arith, less_than-ltb m (k - 1) v, lower_bound-some v (suc k) cs r h.2)

  -- The range that holds v is split in two, cut at an end, or removed.
  narrow_here :
      (v e k : ℕ) (x c : Option C) (cs : Changes C)
      → Rises (suc k) cs
      → e ≤ v
      → v < k
      → k < half
      → narrow m v
          (record { lower = e; upper = k - 1 })
          (record { lower = e; upper = k - 1 } ∷ gaps (suc k) cs)
        ≡ gaps e ((v, x) ∷ (k, c) ∷ cs)
  unfolding narrow gaps
  narrow_here v e k x c cs h b u l = ground (
    arith,
    less_than-ltb m (k - 1) (v - 1),
    less_than-ltb m (v - 1) (k - 1),
    insert_range-gaps (record { lower = e; upper = v - 1 }) (suc k) cs h,
    insert_range-gaps (record { lower = suc v; upper = k - 1 }) (suc k) cs h,
  )

  -- The update of the ranges is the recomputation with the new change recorded.
  pub narrow-gaps :
      (v e : ℕ) (x : Option C) (cs : Changes C) (r : Range)
      → Rises e cs
      → e ≤ v
      → v < half
      → has_change v cs ≡ false
      → lower_bound m v (gaps e cs) ≡ some r
      → narrow m v r (gaps e cs) ≡ gaps e (insert_change v x cs)
  unfolding gaps lower_bound has_change insert_change
  narrow-gaps v e x [] r h b u f l = absurd (cc)
  narrow-gaps v e x ((k, c) ∷ cs) r h b u f l = ground (
    arith,
    less_than-ltb m (k - 1) v,
    lower_bound-some v (suc k) cs r h.2,
    narrow-cons m v r (record { lower = e; upper = k - 1 }) (gaps (suc k) cs),
    narrow_here v e k x c cs h.2,
    narrow-gaps v (suc k) x cs r h.2,
  )

module _ {ℓ} {C : Type ℓ} where
  pub insert_change-Rises :
      (v e : ℕ) (x : Option C) (cs : Changes C)
      → Rises e cs
      → e ≤ v
      → v < half
      → Rises e (insert_change v x cs)
  unfolding insert_change
  insert_change-Rises v e x [] h b u = omega arith
  insert_change-Rises v e x ((k, c) ∷ cs) h b u =
      ground (arith, insert_change-Rises v (suc k) x cs h.2)

  pub next_of-insert_change :
      (v e : ℕ) (x : Option C) (cs : Changes C)
      → Rises e cs
      → e ≤ v
      → next_of e (insert_change v x cs) ≡ max (next_of e cs) (suc v)
  unfolding insert_change next_of
  next_of-insert_change v e x [] h b = omega arith
  next_of-insert_change v e x ((k, c) ∷ cs) h b =
      ground (arith, next_of-insert_change v (suc k) x cs h.2, le-next_of (suc k) cs h.2)

module _ {ℓ} {C : Type ℓ} (m : Modular) where
  -- The last gap closes only by a change that fills it.
  pub gaps_closed :
      (v e : ℕ) (x : Option C) (cs : Changes C) (r : Range)
      → Rises e cs
      → e ≤ v
      → v < half
      → has_change v cs ≡ false
      → lower_bound m v (gaps e cs) ≡ some r
      → is_empty (gaps e (insert_change v x cs)) ≡ true
      → (v ≡ r.upper) × (r.lower ≡ v)
  unfolding gaps lower_bound has_change insert_change
  gaps_closed v e x [] r h b u f l n = absurd (cc)
  gaps_closed v e x ((k, c) ∷ cs) r h b u f l n =
      ground (arith, less_than-ltb m (k - 1) v, gaps_closed v (suc k) x cs r h.2)
