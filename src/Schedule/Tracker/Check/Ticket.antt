-- ===== src/Schedule/Tracker/Check/Ticket.antt =====
-- The check of the expected version, and that setting a callback keeps the recorded versions.
use rmf_traffic.Base.{ℕ, suc, ◌≤◌, ◌<◌, ◌≡◌, refl, Bool, none, [], ◌∷◌, arith}
use rmf_traffic.Base.Modular.{Modular, half, less_than-ltb}
use rmf_traffic.Schedule.Tracker.{Tracker, Changes, has_change}
use rmf_traffic.Schedule.Tracker.Gaps.{gaps, next_of, Rises}
use rmf_traffic.Schedule.Tracker.Check.{
  check, check_consistent, check_seen, see_version, set_callback,
}

module _ {ℓ} {C : Type ℓ} where
  -- With no version missing the expected version is accepted, whether it nullifies or not.
  pub check_expected :
      (m : Modular) (t : Tracker C) (v : ℕ) (nullifying : Bool)
      → t.ranges ≡ []
      → t.expected_version ≡ v
      → v ≤ t.last_known_version
      → suc t.last_known_version < half
      → check m t v nullifying ≡ (record t { expected_version = suc v }, none)
  unfolding check check_seen check_consistent see_version
  check_expected m t v nullifying r x l b = ground (arith, less_than-ltb m t.last_known_version v)

  pub gaps-set_callback :
      (v e : ℕ) (c : C) (cs : Changes C) → gaps e (set_callback v c cs) ≡ gaps e cs
  unfolding gaps set_callback
  gaps-set_callback v e c [] = refl
  gaps-set_callback v e c ((k, d) ∷ cs) = ground (arith, gaps-set_callback v (suc k) c cs)

  pub next_of-set_callback :
      (v e : ℕ) (c : C) (cs : Changes C) → next_of e (set_callback v c cs) ≡ next_of e cs
  unfolding next_of set_callback
  next_of-set_callback v e c [] = refl
  next_of-set_callback v e c ((k, d) ∷ cs) = ground (arith, next_of-set_callback v (suc k) c cs)

  pub set_callback-Rises :
      (v e : ℕ) (c : C) (cs : Changes C) → Rises e cs → Rises e (set_callback v c cs)
  unfolding set_callback
  set_callback-Rises v e c [] h = tt
  set_callback-Rises v e c ((k, d) ∷ cs) h = ground (arith, set_callback-Rises v (suc k) c cs h.2)

  pub has_change-set_callback :
      (w v : ℕ) (c : C) (cs : Changes C) → has_change w (set_callback v c cs) ≡ has_change w cs
  unfolding has_change set_callback
  has_change-set_callback w v c [] = refl
  has_change-set_callback w v c ((k, d) ∷ cs) = ground (arith, has_change-set_callback w v c cs)
