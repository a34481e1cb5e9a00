-- ===== src/Schedule/Delivery/Order.antt =====
-- One delivery, and the changes in the order of their versions.
use rmf_traffic.Base.{
  ℕ, suc, ◌≤◌, ◌<◌, ◌≡◌, refl, sym, subst, ◌∙◌, ◌⊎◌, inl, inr, Bool, true, false, none, some, [],
  ◌∷◌, if◌then◌else◌, arith, is_empty, max, Bool-cases, Option,
}
use rmf_traffic.Base.Modular.{Modular, half, less_than-ltb}
use rmf_traffic.Schedule.Tracker.{Tracker, Changes, has_change, insert_change}
use rmf_traffic.Schedule.Tracker.Gaps.{gaps, next_of, le-next_of, next_of-not-has}
use rmf_traffic.Schedule.Tracker.Known.{has_change-insert_change, has_change-newer}
use rmf_traffic.Schedule.Tracker.Check.{check, set_callback}
use rmf_traffic.Schedule.Tracker.Check.Sound.{
  IsExact, IsSound, Accepts, Waits, Answer, recorded, check_exact,
}
use rmf_traffic.Schedule.Tracker.Check.Ticket.{
  gaps-set_callback, next_of-set_callback, set_callback-Rises, has_change-set_callback,
}
use rmf_traffic.Schedule.Delivery.Notes.{
  Filled, fill_recorded, HeadIs-set_callback, HeadIs-insert_change,
}
use rmf_traffic.Schedule.Delivery.Replay.{history, InStep, history_step, replay-history}
use rmf_traffic.Schedule.Delivery.{Change, Replica, apply_changes, redeem, deliver}

-- A version that has arrived: it is recorded, or below the expected one.
abbrev pub Known : {C : Type 0} → ℕ → Tracker C → Type 0
Known w t = (w < t.expected_version) ⊎ (has_change w t.changes ≡ true)

module _ {P S : Type 0} (m : Modular) (apply : Change P → S → S) (sent : ℕ → Change P)
    (versioned : (v : ℕ) → (sent v).version ≡ v)
    (forgets : (v : ℕ)
      → (sent v).nullifying ≡ true
      → (s s' : S) → apply (sent v) s ≡ apply (sent v) s')
    (start : ℕ) (initial : S) where
  abbrev pub State : ℕ → Changes (Change P) → S → Type 0
  State = InStep m apply sent versioned forgets start initial

  -- The replica while a call is under way.
  pub record IsCarried (d : Replica P S) : Type 0 where
    pub tracks : IsExact d.tracker
    pub filled : Filled sent d.tracker.changes
    pub from_start : start ≤ d.tracker.expected_version
    pub in_step : State d.tracker.expected_version d.tracker.changes d.state

  -- The replica between two calls.
  pub record IsInSync (d : Replica P S) : Type 0 where
    pub sound : IsSound d.tracker
    pub carried : IsCarried d

  -- The tracker after the ticket for v is set.
  abbrev noted : Tracker (Change P) → ℕ → Tracker (Change P)
  noted t v = record t { changes = set_callback v (sent v) t.changes }

  noted-IsExact : (t : Tracker (Change P)) (v : ℕ) → IsExact t → IsExact (noted t v)
  noted-IsExact t v x = ground (
    arith,
    x.exact,
    x.rising,
    x.latest,
    gaps-set_callback v t.expected_version (sent v) t.changes,
    next_of-set_callback v t.expected_version (sent v) t.changes,
    set_callback-Rises v t.expected_version (sent v) t.changes,
  )

  -- What is recorded for v, with the expected version that goes with it.
  recorded_in_step :
      (t : Tracker (Change P)) (v e' : ℕ) (s : S)
      → State t.expected_version t.changes s
      → t.expected_version ≤ v
      → e' ≡ (
          if has_change v t.changes
          then t.expected_version
          else if (sent v).nullifying
          then v
          else t.expected_version)
      → State e' (set_callback v (sent v) (recorded t v (sent v).nullifying)) s
  unfolding recorded set_callback
  recorded_in_step t v e' s i l x = ground (
    arith,
    HeadIs-insert_change sent t.expected_version v t.changes,
    HeadIs-set_callback sent t.expected_version v (sent v) t.changes,
    HeadIs-set_callback sent t.expected_version v (sent v) (insert_change v none t.changes),
  )

  -- The replica with the ticket set, before the ticket is destroyed.
  noted-IsCarried :
      (d : Replica P S) (v : ℕ) (t' : Tracker (Change P))
      → IsCarried d
      → d.tracker.expected_version ≤ v
      → IsExact t'
      → Waits d.tracker v (sent v).nullifying t' (some v)
      → IsCarried (record d { tracker = noted t' v })
  noted-IsCarried d v t' i l x w = record {
    tracks = noted-IsExact t' v x;
    filled = rw (w.records) (fill_recorded sent v d.tracker (sent v).nullifying i.filled);
    from_start = ground (arith, i.from_start, w.expects);
    in_step =
        rw (w.records)
          (recorded_in_step d.tracker v t'.expected_version d.state i.in_step l w.expects);
  }

  -- What a call for version v makes of a replica.
  pub record Advances (v : ℕ) (d d' : Replica P S) : Type 0 where
    pub in_sync : IsInSync d'
    pub knows : (w : ℕ) → (w ≡ v) ⊎ Known w d.tracker → Known w d'.tracker
    pub latest : d'.tracker.last_known_version ≡ max d.tracker.last_known_version v

  pub record Settles (d d' : Replica P S) : Type 0 where
    pub in_sync : IsInSync d'
    pub knows : (w : ℕ) → Known w d.tracker → Known w d'.tracker
    pub latest : d'.tracker.last_known_version ≡ d.tracker.last_known_version

  -- The replica once the recorded changes are replayed.
  abbrev caught_up : Replica P S → Replica P S
  caught_up d =
      let e = next_of d.tracker.expected_version d.tracker.changes in
      record {
        tracker = record (d.tracker) { expected_version = e; changes = []; ready = false };
        state = history apply sent start initial e;
      }

  apply_changes_lem :
      (f : ℕ) (d : Replica P S)
      → IsCarried d
      → d.tracker.ranges ≡ []
      → apply_changes (deliver m apply (suc f)) d ≡ caught_up d
  unfolding apply_changes
  apply_changes_lem f d i r = rw (
      replay-history m apply sent versioned forgets start initial f d.tracker.expected_version
        d.tracker.changes (record d { tracker = record (d.tracker) { ready = false } }) i.from_start
        i.tracks.rising (sym i.tracks.exact ∙ r) i.filled r refl (omega (arith, i.tracks.latest))
        i.tracks.bounded i.in_step)

  caught_up-Settles :
      (d : Replica P S) → IsCarried d → d.tracker.ranges ≡ [] → Settles d (caught_up d)
  unfolding gaps next_of
  caught_up-Settles d i r =
      let grows = le-next_of d.tracker.expected_version d.tracker.changes i.tracks.rising in
      let x : IsExact (caught_up d).tracker = record {
        exact = r;
        rising = tt;
        latest = i.tracks.latest;
        bounded = i.tracks.bounded;
      } in
      record {
        in_sync = record {
          sound = record { tracks = x; not_ready = refl; settled = λ _. refl };
          carried = record {
            tracks = x;
            filled = tt;
            from_start = omega (arith, grows, i.from_start);
            in_step = inl refl;
          };
        };
        knows = λ w h. ground (
          arith,
          grows,
          next_of-not-has d.tracker.expected_version w d.tracker.changes i.tracks.rising,
        );
        latest = refl;
      }

  settle :
      (f : ℕ) (d : Replica P S)
      → IsCarried d
      → d.tracker.ready ≡ is_empty d.tracker.ranges
      → Settles d
          (elim d.tracker.ready [ true ↦ apply_changes (deliver m apply (suc f)) d | false ↦ d ])
  settle f d i y =
      (elim d.tracker.ready
          as (λ b.
            d.tracker.ready ≡ b
            → Settles d (elim b [ true ↦ apply_changes (deliver m apply (suc f)) d | false ↦ d ])) [
              | true ↦ λ e.
                  let r : d.tracker.ranges ≡ [] = ground (arith, y, e) in
                  rw (apply_changes_lem f d i r) (caught_up-Settles d i r)
              | false ↦ λ e. record {
                in_sync = record {
                  sound = record {
                    tracks = i.tracks;
                    not_ready = e;
                    settled = λ h. ground (arith, y, e, h);
                  };
                  carried = i;
                };
                knows = λ w h. h;
                latest = refl;
              }
            ])
        refl

  -- Every version that has arrived is below the expected one, where the answer is to accept.
  accepted-Known :
      (t t' : Tracker (Change P)) (v w : ℕ) (n : Bool)
      → IsExact t
      → IsExact t'
      → t'.last_known_version ≡ max t.last_known_version v
      → Accepts t v n t' none
      → t.expected_version ≤ v
      → (w ≡ v) ⊎ Known w t
      → Known w t'
  unfolding next_of
  accepted-Known t t' v w n x x' l a o h = ground (
    arith,
    a.nothing_waits,
    a.moves_on,
    x'.latest,
    x.latest,
    next_of-not-has t.expected_version w t.changes x.rising,
  )

  accepted_state :
      (d : Replica P S) (v : ℕ)
      → IsCarried d
      → d.tracker.expected_version ≤ v
      → ((sent v).nullifying ≡ true) ⊎ ((v ≡ d.tracker.expected_version) × (d.tracker.changes ≡ []))
      → apply (sent v) d.state ≡ history apply sent start initial (suc v)
  accepted_state d v i o (inl n) =
      history_step m apply sent versioned forgets start initial v ((v, none) ∷ []) d.state
        (omega (arith, i.from_start)) (inr (refl, n))
  accepted_state d v i o (inr p) = rw (p.0) (
      history_step m apply sent versioned forgets start initial d.tracker.expected_version
        d.tracker.changes d.state i.from_start i.in_step)

  accepted-Advances :
      (d : Replica P S) (v : ℕ) (t' : Tracker (Change P))
      → IsInSync d
      → d.tracker.expected_version ≤ v
      → IsExact t'
      → t'.last_known_version ≡ max d.tracker.last_known_version v
      → Accepts d.tracker v (sent v).nullifying t' none
      → Advances v d (record { tracker = t'; state = apply (sent v) d.state })
  accepted-Advances d v t' i o x l a = record {
    in_sync = record {
      sound = record {
        tracks = x;
        not_ready = a.still_idle;
        settled = λ _. ground (arith, a.nothing_waits);
      };
      carried = record {
        tracks = x;
        filled = rw (a.nothing_waits) tt;
        from_start = ground (arith, i.carried.from_start, a.moves_on);
        in_step = inl (rw (a.moves_on) (accepted_state d v i.carried o a.in_order));
      };
    };
    knows = λ w h. accepted-Known d.tracker t' v w (sent v).nullifying i.sound.tracks x l a o h;
    latest = l;
  }

  -- The part of deliver after the check.
  abbrev answered : ℕ → Change P → Replica P S → Tracker (Change P) × Option ℕ → Replica P S
  answered f c d (t, ticket) = elim ticket [
    | none ↦ record { tracker = t; state = apply c d.state }
    | some v ↦ redeem (deliver m apply f) v c (record d { tracker = t })
  ]

  deliver-answered :
      (f v : ℕ) (c : Change P) (d : Replica P S)
      → c.version ≡ v
      → m.less_than v d.tracker.expected_version ≡ false
      → deliver m apply (suc f) c d ≡ answered f c d (check m d.tracker v c.nullifying)
  unfolding deliver
  deliver-answered f v c d e =
      subst
        (λ (n : ℕ).
          m.less_than n d.tracker.expected_version ≡ false
          → deliver m apply (suc f) c d ≡ answered f c d (check m d.tracker n c.nullifying))
        e (λ h. rw (h, deliver))

  -- An old change is ignored.
  deliver_old :
      (f v : ℕ) (c : Change P) (d : Replica P S)
      → c.version ≡ v
      → m.less_than v d.tracker.expected_version ≡ true
      → deliver m apply (suc f) c d ≡ d
  unfolding deliver
  deliver_old f v c d e =
      subst
        (λ (n : ℕ).
          m.less_than n d.tracker.expected_version ≡ true → deliver m apply (suc f) c d ≡ d)
        e (λ h. rw (h, deliver))

  noted-Known :
      (t t' : Tracker (Change P)) (v w : ℕ)
      → t.expected_version ≤ v
      → Waits t v (sent v).nullifying t' (some v)
      → (w ≡ v) ⊎ Known w t
      → Known w (noted t' v)
  unfolding recorded has_change
  noted-Known t t' v w o a h = ground (
    arith,
    a.records,
    a.expects,
    has_change-set_callback w v (sent v) t'.changes,
    has_change-insert_change w v none t.changes,
    has_change-newer w v t.changes,
  )

  noted-Advances :
      (f v : ℕ) (d : Replica P S) (t' : Tracker (Change P))
      → IsInSync d
      → d.tracker.expected_version ≤ v
      → IsExact t'
      → t'.last_known_version ≡ max d.tracker.last_known_version v
      → Waits d.tracker v (sent v).nullifying t' (some v)
      → Advances v d (redeem (deliver m apply (suc f)) v (sent v) (record d { tracker = t' }))
  unfolding redeem
  noted-Advances f v d t' i o x l w =
      let done =
        settle f (record d { tracker = noted t' v }) (noted-IsCarried d v t' i.carried o x w)
          w.ready_if_complete in
      record {
        in_sync = done.in_sync;
        knows = λ n h. done.knows n (noted-Known d.tracker t' v n o w h);
        latest = done.latest ∙ l;
      }

  answered-Advances :
      (f v : ℕ) (d : Replica P S) (r : Tracker (Change P) × Option ℕ)
      → IsInSync d
      → d.tracker.expected_version ≤ v
      → Answer d.tracker v (sent v).nullifying r
      → Advances v d (answered (suc f) (sent v) d r)
  answered-Advances f v d (t, none) i o (x, l, inl a) = accepted-Advances d v t i o x l a
  answered-Advances f v d (t, none) i o (x, l, inr w) = cc (w.has_ticket)
  answered-Advances f v d (t, some k) i o (x, l, inl a) = cc (a.no_ticket)
  answered-Advances f v d (t, some k) i o (x, l, inr w) =
      let same : k ≡ v = cc (w.has_ticket) in
      rw same (noted-Advances f v d t i o x l (rw same at w))

  -- A delivery of any change whose version has not wrapped keeps the replica in step with the
  -- history: its state is that of the changes below the expected version, in the order of their
  -- versions, except while a nullifying change is the next to be applied; the ranges are exact, and
  -- changes are recorded only while a version is missing. No version that has arrived is forgotten.
  pub deliver-Advances :
      (f v : ℕ) (d : Replica P S)
      → IsInSync d
      → suc v < half
      → Advances v d (deliver m apply (suc (suc f)) (sent v) d)
  deliver-Advances f v d i b =
      let t = d.tracker in
      let grows = le-next_of t.expected_version t.changes i.sound.rising in
      let low : t.expected_version < half = omega (arith, grows, i.sound.latest, i.sound.bounded) in
      let order = less_than-ltb m v t.expected_version (omega arith) low in
      elim (Bool-cases (m.less_than v t.expected_version)) [
        | inl old ↦ rw (deliver_old (suc f) v (sent v) d (versioned v) old) (record {
          in_sync = i;
          knows = λ w h. ground (arith, old, order);
          latest = ground (arith, old, order, grows, i.sound.latest);
        })
        | inr new ↦
            let o : t.expected_version ≤ v = ground (arith, new, order) in
            rw (deliver-answered (suc f) v (sent v) d (versioned v) new) (
              answered-Advances f v d (check m t v (sent v).nullifying) i o
                (check_exact m t v i.sound o b (sent v).nullifying))
      ]
