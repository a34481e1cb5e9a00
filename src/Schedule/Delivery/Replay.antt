-- ===== src/Schedule/Delivery/Replay.antt =====
-- The replay of the recorded changes, once no version is missing.
use rmf_traffic.Base.{
  ℕ, zero, suc, ◌≤◌, ◌<◌, ◌≡◌, refl, ap, ◌⊎◌, inl, inr, true, none, some, [], ◌∷◌, if◌then◌else◌,
  arith, ltb,
}
use rmf_traffic.Base.Modular.{Modular, half, less_than-ltb}
use rmf_traffic.Schedule.Tracker.{Changes}
use rmf_traffic.Schedule.Tracker.Gaps.{gaps, next_of, Rises, le-next_of}
use rmf_traffic.Schedule.Tracker.Check.Ticket.{check_expected}
use rmf_traffic.Schedule.Delivery.Notes.{Filled, HeadIs}
use rmf_traffic.Schedule.Delivery.{Change, Replica, replay, deliver}

module _ {P S : Type 0} (apply : Change P → S → S) (sent : ℕ → Change P) (start : ℕ)
    (initial : S) where
  -- The state after the changes start, start + 1, …, n - 1, in this order.
  unfoldable pub history : ℕ → S
  history zero = initial
  history (suc n) = if ltb n start then initial else apply (sent n) (history n)

-- One participant: the change that it sends under each version, what the changes do, and that a
-- nullifying change forgets the state before it.
module _ {P S : Type 0} (m : Modular) (apply : Change P → S → S) (sent : ℕ → Change P)
    (versioned : (v : ℕ) → (sent v).version ≡ v)
    (forgets : (v : ℕ)
      → (sent v).nullifying ≡ true
      → (s s' : S) → apply (sent v) s ≡ apply (sent v) s')
    (start : ℕ) (initial : S) where
  -- The state holds every change below e; or the change e is next, and forgets the state.
  abbrev pub InStep : ℕ → Changes (Change P) → S → Type 0
  InStep e cs s =
      (s ≡ history apply sent start initial e) ⊎ (HeadIs sent e cs × ((sent e).nullifying ≡ true))

  pub history_step :
      (e : ℕ) (cs : Changes (Change P)) (s : S)
      → start ≤ e
      → InStep e cs s
      → apply (sent e) s ≡ history apply sent start initial (suc e)
  unfolding history
  history_step e cs s i (inl h) = ground (arith, h)
  history_step e cs s i (inr h) =
      ground (arith, forgets e h.1 s (history apply sent start initial e))

  -- The replica after the change e, where no version is missing and e is expected.
  abbrev advanced : ℕ → Replica P S → Replica P S
  advanced e d = record {
    tracker = record (d.tracker) { expected_version = suc e };
    state = apply (sent e) d.state;
  }

  deliver_expected :
      (f e : ℕ) (d : Replica P S)
      → d.tracker.ranges ≡ []
      → d.tracker.expected_version ≡ e
      → e ≤ d.tracker.last_known_version
      → suc d.tracker.last_known_version < half
      → deliver m apply (suc f) (sent e) d ≡ advanced e d
  unfolding deliver
  deliver_expected f e d r x l b = rw versioned (
      ground (
        arith,
        check_expected m d.tracker e (sent e).nullifying r x l b,
        less_than-ltb m e d.tracker.expected_version,
      ))

  -- The replica after the replay of changes that follow one another.
  abbrev replayed : ℕ → S → Replica P S → Replica P S
  replayed e s d = record { tracker = record (d.tracker) { expected_version = e }; state = s }

  pub replay-history :
      (f e : ℕ) (cs : Changes (Change P)) (d : Replica P S)
      → start ≤ e
      → Rises e cs
      → gaps e cs ≡ []
      → Filled sent cs
      → d.tracker.ranges ≡ []
      → d.tracker.expected_version ≡ e
      → next_of e cs ≤ suc d.tracker.last_known_version
      → suc d.tracker.last_known_version < half
      → InStep e cs d.state
      → replay (deliver m apply (suc f)) cs d
        ≡ replayed (next_of e cs) (history apply sent start initial (next_of e cs)) d
  unfolding replay gaps next_of
  replay-history f e [] d i h g q r x l b (inl s) = ground (arith, x, s)
  replay-history f e [] d i h g q r x l b (inr s) = absurd s.0
  replay-history f e ((k, none) ∷ cs) d i h g q r x l b s = cc (q.0)
  replay-history f e ((k, some c) ∷ cs) d i h g q r x l b s =
      let here : k ≡ e = ground arith in
      let called : c ≡ sent e = ground (arith, ap sent here) in
      let rises : Rises (suc e) cs = rw here at h.2 in
      let none_left : gaps (suc e) cs ≡ [] = ground arith in
      let known : next_of (suc e) cs ≤ suc d.tracker.last_known_version = rw here at l in
      rw (called, deliver_expected f e d r x (omega (arith, le-next_of (suc e) cs rises)) b)
        (rw here (
          replay-history f (suc e) cs (advanced e d) (omega arith) rises none_left q.1 r refl known
            b (inl (history_step e ((k, some c) ∷ cs) d.state i s))))
