-- ===== src/Schedule/Tracker/Newer.antt =====
-- The changes and the gaps that are left after a nullifying change, which erases all older ones.
use rmf_traffic.Base.{
  ℕ, suc, ◌-◌, ◌≤◌, ◌<◌, max, ◌≡◌, false, Option, some, [], ◌∷◌, arith, ltb, if◌then◌else◌,
}
use rmf_traffic.Base.Modular.{Modular, half, less_than-ltb}
use rmf_traffic.Schedule.Tracker.{
  Range, Changes, has_change, insert_change, erase_older, lower_bound, narrow_nullifying,
}
use rmf_traffic.Schedule.Tracker.Gaps.{
  gaps, next_of, Rises, le-next_of, insert_range-gaps, lower_bound-some,
}

module _ {ℓ} {C : Type ℓ} where
  -- What a nullifying change leaves of the recorded ones.
  unfoldable pub newer : ℕ → Changes C → Changes C
  newer v [] = []
  newer v ((k, c) ∷ cs) = if ltb v k then (k, c) ∷ cs else newer v cs

  pub erase_older-insert_change :
      (v e : ℕ) (x : Option C) (cs : Changes C)
      → Rises e cs
      → has_change v cs ≡ false
      → erase_older v (insert_change v x cs) ≡ (v, x) ∷ newer v cs
  unfolding erase_older insert_change newer has_change
  erase_older-insert_change v e x [] h f = ground arith
  erase_older-insert_change v e x ((k, c) ∷ cs) h f =
      ground (arith, erase_older-insert_change v (suc k) x cs h.2)

  pub newer-Rises : (v e : ℕ) (cs : Changes C) → Rises e cs → Rises (suc v) (newer v cs)
  unfolding newer
  newer-Rises v e [] h = tt
  newer-Rises v e ((k, c) ∷ cs) h = ground (arith, newer-Rises v (suc k) cs h.2)

  pub next_of-newer :
      (v e : ℕ) (cs : Changes C)
      → Rises e cs
      → e ≤ suc v
      → next_of (suc v) (newer v cs) ≡ max (next_of e cs) (suc v)
  unfolding newer next_of
  next_of-newer v e [] h b = omega arith
  next_of-newer v e ((k, c) ∷ cs) h b =
      ground (arith, next_of-newer v (suc k) cs h.2, le-next_of (suc k) cs h.2)

module _ {ℓ} {C : Type ℓ} (m : Modular) where
  -- A nullifying change leaves the gaps above it.
  pub narrow_nullifying-gaps :
      (v e : ℕ) (cs : Changes C) (r : Range)
      → Rises e cs
      → e ≤ v
      → v < half
      → has_change v cs ≡ false
      → lower_bound m v (gaps e cs) ≡ some r
      → narrow_nullifying m v r (gaps e cs) ≡ gaps (suc v) (newer v cs)
  unfolding gaps lower_bound has_change newer narrow_nullifying
  narrow_nullifying-gaps v e [] r h b u f l = absurd (cc)
  narrow_nullifying-gaps v e ((k, c) ∷ cs) r h b u f l = ground (
    arith,
    less_than-ltb m (k - 1) v,
    lower_bound-some m v (suc k) cs r h.2,
    insert_range-gaps m (record { lower = suc v; upper = k - 1 }) (suc k) cs h.2,
    narrow_nullifying-gaps v (suc k) cs r h.2,
  )
