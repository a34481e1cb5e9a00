-- ===== src/Schedule/Delivery/Converge.antt =====
-- A replica that every change has reached, in any order and any number of times.
use rmf_traffic.Base.{
  ℕ, suc, ◌+◌, ◌%◌, ◌≤◌, ◌<◌, ◌≡◌, refl, ap, sym, ◌∙◌, ◌⊎◌, inl, inr, true, List, [], ◌∷◌, arith,
  max, map, All, Contains,
}
use rmf_traffic.Base.Modular.{Modular, half, word}
use rmf_traffic.Schedule.Tracker.{init, Range, has_change}
use rmf_traffic.Schedule.Tracker.Gaps.{next_of}
use rmf_traffic.Schedule.Tracker.Known.{missing}
use rmf_traffic.Schedule.Tracker.Check.Sound.{init-IsSound}
use rmf_traffic.Schedule.Delivery.Replay.{history}
use rmf_traffic.Schedule.Delivery.Order.{IsInSync, Known, deliver-Advances}
use rmf_traffic.Schedule.Delivery.{Change, Replica, deliver, deliver_all}

-- A participant that registered with the version last, and no changes so far.
abbrev pub registered : {P S : Type 0} → ℕ → S → Replica P S
registered last initial = record { tracker = init last; state = initial }

-- The highest of a version and those of a list.
abbrev pub highest : ℕ → List ℕ → ℕ
highest n [] = n
highest n (v ∷ vs) = highest (max n v) vs

module _ {P S : Type 0} (m : Modular) (apply : Change P → S → S) (sent : ℕ → Change P)
    (versioned : (v : ℕ) → (sent v).version ≡ v)
    (forgets : (v : ℕ)
      → (sent v).nullifying ≡ true
      → (s s' : S) → apply (sent v) s ≡ apply (sent v) s')
    (start : ℕ) (initial : S) where
  abbrev InSync : Replica P S → Type 0
  InSync = IsInSync m apply sent versioned forgets start initial

  abbrev arrived : ℕ → List ℕ → Replica P S → Replica P S
  arrived f vs d = deliver_all m apply (suc (suc f)) (map sent vs) d

  arrived-IsInSync :
      (f : ℕ) (vs : List ℕ) (d : Replica P S)
      → InSync d
      → All (λ v. suc v < half) vs
      → InSync (arrived f vs d)
        × ((w : ℕ) → Contains w vs ⊎ Known w d.tracker → Known w (arrived f vs d).tracker)
        × ((arrived f vs d).tracker.last_known_version ≡ highest d.tracker.last_known_version vs)
  unfolding deliver_all
  arrived-IsInSync f [] d i b = (i, from_empty, refl)
    where
      from_empty : (w : ℕ) → Contains w [] ⊎ Known w d.tracker → Known w d.tracker
      from_empty w (inl h) = absurd h
      from_empty w (inr h) = h
  arrived-IsInSync f (v ∷ vs) d i b =
      let one = deliver-Advances m apply sent versioned forgets start initial f v d i b.0 in
      let rest = arrived-IsInSync f vs (deliver m apply (suc (suc f)) (sent v) d) one.in_sync b.1 in
      (
        rest.0,
        from_cons (λ w. Known w d.tracker)
            (λ w. Known w (deliver m apply (suc (suc f)) (sent v) d).tracker)
            (λ w. Known w (arrived f (v ∷ vs) d).tracker) rest.1 one.knows,
        rest.2 ∙ ap (λ n. highest n vs) one.latest,
      )
    where
      from_cons :
          (before now after : ℕ → Type 0)
          → ((w : ℕ) → Contains w vs ⊎ now w → after w)
          → ((w : ℕ) → (w ≡ v) ⊎ before w → now w)
          → (w : ℕ) → Contains w (v ∷ vs) ⊎ before w
          → after w
      from_cons b n a later soon w (inl (inl h)) = later w (inr (soon w (inl h)))
      from_cons b n a later soon w (inl (inr h)) = later w (inl h)
      from_cons b n a later soon w (inr h) = later w (inr (soon w (inr h)))

All-low : (n : ℕ) (vs : List ℕ) → suc n < half → All (λ v. v ≤ n) vs → All (λ v. suc v < half) vs
All-low n [] b a = tt
All-low n (v ∷ vs) b a = (omega (arith, a.0), All-low n vs b a.1)

highest_bounds :
    (n k : ℕ) (vs : List ℕ) → All (λ v. v ≤ n) vs → k ≤ n → (k ≤ highest k vs) × (highest k vs ≤ n)
highest_bounds n k [] a h = omega arith
highest_bounds n k (v ∷ vs) a h = omega (arith, highest_bounds n (max k v) vs a.1 (omega arith))

module _ {P S : Type 0} (m : Modular) (apply : Change P → S → S) (sent : ℕ → Change P)
    (versioned : (v : ℕ) → (sent v).version ≡ v)
    (forgets : (v : ℕ)
      → (sent v).nullifying ≡ true
      → (s s' : S) → apply (sent v) s ≡ apply (sent v) s')
    (last : ℕ) (initial : S) where
  pub registered-IsInSync :
      suc last < half
      → IsInSync m apply sent versioned forgets (suc last) initial (registered last initial)
  unfolding init history
  registered-IsInSync b =
      let sound = init-IsSound {C = Change P} last b in
      let e : (last + 1) % word ≡ suc last = omega arith in
      record {
        sound = sound;
        carried = record {
          tracks = sound.tracks;
          filled = tt;
          from_start = omega arith;
          in_step = inl (rw e (ground arith));
        };
      }

  converged :
      (n : ℕ) (d : Replica P S)
      → IsInSync m apply sent versioned forgets (suc last) initial d
      → last ≤ d.tracker.last_known_version
      → d.tracker.last_known_version ≤ n
      → ((w : ℕ) → last < w → w ≤ n → Known w d.tracker)
      → (d.tracker.ranges ≡ [])
        × (d.tracker.last_known_version ≡ n)
        × (d.tracker.expected_version ≡ suc n)
        × (d.state ≡ history apply sent (suc last) initial (suc n))
  unfolding next_of has_change
  converged n d i l u k = go d.tracker.ranges refl
    where
      go :
          (rs : List Range)
          → d.tracker.ranges ≡ rs
          → (d.tracker.ranges ≡ [])
            × (d.tracker.last_known_version ≡ n)
            × (d.tracker.expected_version ≡ suc n)
            × (d.state ≡ history apply sent (suc last) initial (suc n))
      go (r ∷ rs) e =
          let lost =
            missing d.tracker.expected_version r rs d.tracker.changes i.sound.rising
              (sym i.sound.exact ∙ e) in
          ground (arith, lost, k r.lower, i.sound.latest)
      go [] e = ground (arith, e, i.sound.settled, i.sound.latest, i.carried.in_step, k n)

  -- However the changes up to n of a participant that is registered at the version last arrive, in
  -- whatever order and however often each, once each of last + 1, …, n has arrived nothing is
  -- missing, the last known version is n, the next expected one n + 1, and the state is the result
  -- of the changes in the order of their versions. The hypotheses: no version beyond n arrives,
  -- n + 1 lies in the lower half of the versions, a nullifying change forgets the state before it,
  -- and the fuel is at least two.
  pub deliver_all-history :
      (f n : ℕ) (vs : List ℕ)
      → last ≤ n
      → suc n < half
      → All (λ v. v ≤ n) vs
      → ((w : ℕ) → last < w → w ≤ n → Contains w vs)
      → let d = deliver_all m apply (suc (suc f)) (map sent vs) (registered last initial) in
        (d.tracker.ranges ≡ [])
        × (d.tracker.last_known_version ≡ n)
        × (d.tracker.expected_version ≡ suc n)
        × (d.state ≡ history apply sent (suc last) initial (suc n))
  unfolding init
  deliver_all-history f n vs l b a c =
      let bounds = highest_bounds n last vs a l in
      let (sync, knows, latest) =
        arrived-IsInSync m apply sent versioned forgets (suc last) initial f vs
          (registered last initial) (registered-IsInSync (omega arith)) (All-low n vs b a) in
      converged n (deliver_all m apply (suc (suc f)) (map sent vs) (registered last initial)) sync
        (omega (arith, latest, bounds)) (omega (arith, latest, bounds))
        (λ w h k. knows w (inl (c w h k)))
