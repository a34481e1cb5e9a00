-- ===== src/Schedule/Tracker/Above.antt =====
-- A change above all recorded versions: it goes to the end, and opens a gap before it.
use rmf_traffic.Base.{
  ℕ, suc, ◌-◌, ◌≤◌, ◌<◌, ◌≡◌, refl, false, Option, [], ◌∷◌, ◌++◌, arith, ltb, if◌then◌else◌,
  is_empty,
}
use rmf_traffic.Base.Modular.{Modular, half, less_than-ltb, less_than_or_equal-leb}
use rmf_traffic.Schedule.Tracker.{
  Range, Changes, insert_change, second_highest, insert_range, extend_ranges,
}
use mathlib.Core.List.{append-nil}
use rmf_traffic.Schedule.Tracker.Gaps.{gaps, next_of, Rises, le-next_of}

module _ {ℓ} {C : Type ℓ} where
  -- Above all recorded versions a change goes to the end.
  insert_change-append :
      (v e : ℕ) (x : Option C) (cs : Changes C)
      → Rises e cs
      → next_of e cs ≤ v
      → insert_change v x cs ≡ cs ++ (v, x) ∷ []
  unfolding insert_change next_of
  insert_change-append v e x [] h b = refl
  insert_change-append v e x ((k, c) ∷ cs) h b =
      ground (arith, insert_change-append v (suc k) x cs h.2, le-next_of (suc k) cs h.2)

  second_highest-append :
      (e : ℕ) (last : ℕ × Option C) (cs : Changes C)
      → is_empty cs ≡ false
      → suc (second_highest (cs ++ last ∷ [])) ≡ next_of e cs
  unfolding second_highest next_of
  second_highest-append e last [] n = absurd (cc)
  second_highest-append e last ((k, c) ∷ []) n = refl
  second_highest-append e last ((k, c) ∷ (l, d) ∷ []) n = refl
  second_highest-append e last ((k, c) ∷ (l, d) ∷ z ∷ cs) n =
      second_highest-append (suc k) last ((l, d) ∷ z ∷ cs) refl

  -- Then the highest version before it is the last but one.
  second_highest-insert_change :
      (v e : ℕ) (x : Option C) (cs : Changes C)
      → Rises e cs
      → next_of e cs ≤ v
      → is_empty cs ≡ false
      → suc (second_highest (insert_change v x cs)) ≡ next_of e cs
  second_highest-insert_change v e x cs h b n =
      rw (insert_change-append v e x cs h b) (second_highest-append e (v, x) cs n)

  gaps-insert_change :
      (v e : ℕ) (x : Option C) (cs : Changes C)
      → Rises e cs
      → next_of e cs ≤ v
      → gaps e (insert_change v x cs)
        ≡ gaps e cs
          ++ (if ltb (next_of e cs) v
              then record { lower = next_of e cs; upper = v - 1 } ∷ []
              else [])
  unfolding gaps insert_change next_of
  gaps-insert_change v e x [] h b = ground arith
  gaps-insert_change v e x ((k, c) ∷ cs) h b =
      ground (arith, gaps-insert_change v (suc k) x cs h.2, le-next_of (suc k) cs h.2)

module _ {ℓ} {C : Type ℓ} (m : Modular) where
  insert_range-append :
      (r : Range) (e : ℕ) (cs : Changes C)
      → Rises e cs
      → next_of e cs ≤ r.upper
      → r.upper < half
      → insert_range m r (gaps e cs) ≡ gaps e cs ++ r ∷ []
  unfolding gaps insert_range next_of
  insert_range-append r e [] h b u = refl
  insert_range-append r e ((k, c) ∷ cs) h b u = ground (
    arith,
    insert_range-append r (suc k) cs h.2,
    le-next_of (suc k) cs h.2,
    less_than-ltb m (k - 1) r.upper,
  )

  -- A change above all recorded ones adds the gap below it.
  pub extend_ranges-gaps :
      (v e : ℕ) (x : Option C) (cs : Changes C)
      → Rises e cs
      → next_of e cs ≤ v
      → v < half
      → is_empty cs ≡ false
      → extend_ranges m v (insert_change v x cs) (gaps e cs) ≡ gaps e (insert_change v x cs)
  unfolding extend_ranges
  extend_ranges-gaps v e x cs h b u n = ground (
    arith,
    second_highest-insert_change v e x cs h b n,
    gaps-insert_change v e x cs h b,
    less_than_or_equal-leb m (next_of e cs) (v - 1),
    insert_range-append (record { lower = next_of e cs; upper = v - 1 }) e cs h,
    append-nil (gaps e cs),
  )
