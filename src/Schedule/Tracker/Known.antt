-- ===== src/Schedule/Tracker/Known.antt =====
-- Which versions are recorded after an insertion or a nullifying change.
use rmf_traffic.Base.{
  ℕ, suc, ◌≤◌, ◌<◌, ◌≡◌, refl, true, false, Option, [], ◌∷◌, arith, ◌==◌, if◌then◌else◌, List,
}
use rmf_traffic.Schedule.Tracker.{Changes, Range, has_change, insert_change}
use rmf_traffic.Schedule.Tracker.Gaps.{gaps, next_of, Rises, le-next_of}
use rmf_traffic.Schedule.Tracker.Newer.{newer}

module _ {ℓ} {C : Type ℓ} where
  pub has_change-insert_change :
      (w v : ℕ) (x : Option C) (cs : Changes C)
      → has_change w (insert_change v x cs) ≡ (if v == w then true else has_change w cs)
  unfolding has_change insert_change
  has_change-insert_change w v x [] = refl
  has_change-insert_change w v x ((k, c) ∷ cs) = ground (arith, has_change-insert_change w v x cs)

  pub has_change-newer :
      (w v : ℕ) (cs : Changes C) → v < w → has_change w (newer v cs) ≡ has_change w cs
  unfolding has_change newer
  has_change-newer w v [] h = refl
  has_change-newer w v ((k, c) ∷ cs) h = ground (arith, has_change-newer w v cs h)

  -- A version below all recorded ones is not recorded.
  not_below : (w e : ℕ) (cs : Changes C) → Rises e cs → w < e → has_change w cs ≡ false
  unfolding has_change
  not_below w e [] h b = refl
  not_below w e ((k, c) ∷ cs) h b = ground (arith, not_below w (suc k) cs h.2)

  -- Every version up to the highest recorded one is recorded, where no range is left.
  has_change_of_no_gaps :
      (w e : ℕ) (cs : Changes C)
      → Rises e cs
      → gaps e cs ≡ []
      → e ≤ w
      → w < next_of e cs
      → has_change w cs ≡ true
  unfolding has_change gaps next_of
  has_change_of_no_gaps w e [] h g l u = absurd (omega arith)
  has_change_of_no_gaps w e ((k, c) ∷ cs) h g l u =
      ground (arith, has_change_of_no_gaps w (suc k) cs h.2)

  -- A range that is left has a version that is not recorded.
  pub missing :
      (e : ℕ) (r : Range) (rs : List Range) (cs : Changes C)
      → Rises e cs
      → gaps e cs ≡ r ∷ rs
      → (e ≤ r.lower) × (r.lower < next_of e cs) × (has_change r.lower cs ≡ false)
  unfolding has_change gaps next_of
  missing e r rs [] h g = absurd (cc)
  missing e r rs ((k, c) ∷ cs) h g =
      ground
        (arith, missing (suc k) r rs cs h.2, le-next_of (suc k) cs h.2, not_below e (suc k) cs h.2)
