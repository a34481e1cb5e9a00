-- ===== src/Schedule/Delivery/Notes.antt =====
-- A recorded change and its callback: the recorded changes stay filled, and the first one stays.
use rmf_traffic.Base.{ℕ, ◌≤◌, ◌≡◌, Bool, false, none, some, [], ◌∷◌, arith}
use rmf_traffic.Schedule.Tracker.{Tracker, Changes, has_change, insert_change}
use rmf_traffic.Schedule.Tracker.Newer.{newer}
use rmf_traffic.Schedule.Tracker.Check.{set_callback}
use rmf_traffic.Schedule.Tracker.Check.Sound.{recorded}
use rmf_traffic.Schedule.Delivery.{Change}

module _ {P : Type 0} (sent : ℕ → Change P) where
  -- Every recorded change has its callback.
  abbrev pub Filled : Changes (Change P) → Type 0
  Filled [] = Unit {0}
  Filled ((k, x) ∷ cs) = (x ≡ some (sent k)) × Filled cs

  abbrev pub HeadIs : ℕ → Changes (Change P) → Type 0
  HeadIs e [] = ⊥
  HeadIs e ((k, x) ∷ cs) = k ≡ e

  fill_again : (v : ℕ) (cs : Changes (Change P)) → Filled cs → Filled (set_callback v (sent v) cs)
  unfolding set_callback
  fill_again v [] h = tt
  fill_again v ((k, x) ∷ cs) h = ground (arith, fill_again v cs h.1)

  fill_new :
      (v : ℕ) (cs : Changes (Change P))
      → Filled cs
      → has_change v cs ≡ false
      → Filled (set_callback v (sent v) (insert_change v none cs))
  unfolding set_callback insert_change has_change
  fill_new v [] h f = ground arith
  fill_new v ((k, x) ∷ cs) h f = ground (arith, fill_new v cs h.1)

  newer-Filled : (v : ℕ) (cs : Changes (Change P)) → Filled cs → Filled (newer v cs)
  unfolding newer
  newer-Filled v [] h = tt
  newer-Filled v ((k, x) ∷ cs) h = ground (arith, newer-Filled v cs h.1)

  pub fill_recorded :
      (v : ℕ) (t : Tracker (Change P)) (nullifying : Bool)
      → Filled t.changes
      → Filled (set_callback v (sent v) (recorded t v nullifying))
  unfolding recorded set_callback
  fill_recorded v t nullifying h =
      ground (arith, fill_again v t.changes h, fill_new v t.changes h, newer-Filled v t.changes h)

  pub HeadIs-set_callback :
      (e v : ℕ) (c : Change P) (cs : Changes (Change P))
      → HeadIs e cs
      → HeadIs e (set_callback v c cs)
  unfolding set_callback
  HeadIs-set_callback e v c [] h = h
  HeadIs-set_callback e v c ((k, x) ∷ cs) h = ground (arith, h)

  pub HeadIs-insert_change :
      (e v : ℕ) (cs : Changes (Change P))
      → e ≤ v
      → has_change v cs ≡ false
      → HeadIs e cs
      → HeadIs e (insert_change v none cs)
  unfolding insert_change has_change
  HeadIs-insert_change e v [] l f h = absurd h
  HeadIs-insert_change e v ((k, x) ∷ cs) l f h = ground (arith, h)
