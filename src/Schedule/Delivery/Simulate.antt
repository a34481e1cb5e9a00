-- ===== src/Schedule/Delivery/Simulate.antt =====
-- Two replicas that differ in what a change does to their state: the delivery of the same changes
-- treats both alike, since the tracker does not look at the state.
use rmf_traffic.Base.{
  ℕ, suc, zero, ◌≡◌, refl, sym, ap, subst, inl, inr, false, none, some, List, [], ◌∷◌, All,
  Bool-cases, Option-cases,
}
use rmf_traffic.Base.Modular.{Modular}
use rmf_traffic.Schedule.Tracker.{Tracker, Changes}
use rmf_traffic.Schedule.Tracker.Check.{check, set_callback}
use rmf_traffic.Schedule.Tracker.Check.Recorded.{Allowed, set_callback-Allowed, check-Allowed}
use rmf_traffic.Schedule.Delivery.{
  Change, Replica, replay, apply_changes, redeem, deliver, deliver_all,
}

module _ {P S A : Type 0} (m : Modular) (apply : Change P → S → S) (model : Change P → A → A)
    (Ok : Change P → Type 0) (R : A → S → Type 0)
    (keeps : (c : Change P) (a : A) (s : S) → Ok c → R a s → R (model c a) (apply c s)) where
  pub record IsAlike (a : Replica P A) (d : Replica P S) : Type 0 where
    pub same : d.tracker ≡ a.tracker
    pub allowed : Allowed Ok a.tracker.changes
    pub related : R a.state d.state

  abbrev Alike :
      (Change P → Replica P A → Replica P A) → (Change P → Replica P S → Replica P S) → Type 0
  Alike f g =
      (c : Change P) (a : Replica P A) (d : Replica P S)
      → Ok c
      → IsAlike a d
      → IsAlike (f c a) (g c d)

  replay-IsAlike :
      (f : Change P → Replica P A → Replica P A) (g : Change P → Replica P S → Replica P S)
      → Alike f g
      → (cs : Changes (Change P)) (a : Replica P A) (d : Replica P S) → Allowed Ok cs
      → IsAlike a d
      → IsAlike (replay f cs a) (replay g cs d)
  unfolding replay
  replay-IsAlike f g h [] a d o i = i
  replay-IsAlike f g h ((k, some c) ∷ cs) a d o i =
      replay-IsAlike f g h cs (f c a) (g c d) o.1 (h c a d o.0 i)
  replay-IsAlike f g h ((k, none) ∷ cs) a d o i = replay-IsAlike f g h cs a d o i

  -- Both with the same tracker
  abbrev with : {B : Type 0} → Tracker (Change P) → B → Replica P B
  with t b = record { tracker = t; state = b }

  apply_changes-IsAlike :
      (f : Change P → Replica P A → Replica P A) (g : Change P → Replica P S → Replica P S)
      → Alike f g
      → (t : Tracker (Change P)) (a : A) (s : S) → Allowed Ok t.changes
      → R a s
      → IsAlike (apply_changes f (with t a)) (apply_changes g (with t s))
  unfolding apply_changes
  apply_changes-IsAlike f g h t a s o r =
      let t' = record t { ready = false } in
      let done =
        replay-IsAlike f g h t.changes (with t' a) (with t' s) o
          (record { same = refl; allowed = o; related = r }) in
      record {
        same = ap (λ (x : Tracker (Change P)). record x { changes = [] }) done.same;
        allowed = tt;
        related = done.related;
      }

  redeem-IsAlike :
      (f : Change P → Replica P A → Replica P A) (g : Change P → Replica P S → Replica P S)
      → Alike f g
      → (v : ℕ) (c : Change P) (t : Tracker (Change P)) (a : A) (s : S) → Ok c
      → Allowed Ok t.changes
      → R a s
      → IsAlike (redeem f v c (with t a)) (redeem g v c (with t s))
  unfolding redeem
  redeem-IsAlike f g h v c t a s ok o r =
      let t' = record t { changes = set_callback v c t.changes } in
      let o' = set_callback-Allowed Ok v c t.changes ok o in
      elim (Bool-cases t.ready) [
        | inl e ↦ rw (e, redeem) (apply_changes-IsAlike f g h t' a s o' r)
        | inr e ↦ rw (e, redeem) (record { same = refl; allowed = o'; related = r })
      ]

  deliver_checked :
      (f : ℕ) (c : Change P) (t : Tracker (Change P)) (a : A) (s : S)
      → Alike (deliver m model f) (deliver m apply f)
      → Ok c
      → Allowed Ok t.changes
      → R a s
      → m.less_than c.version t.expected_version ≡ false
      → IsAlike (deliver m model (suc f) c (with t a)) (deliver m apply (suc f) c (with t s))
  unfolding deliver
  deliver_checked f c t a s h ok o r new =
      let (t', ticket) = check m t c.version c.nullifying in
      let o' = check-Allowed Ok m t c.version c.nullifying o in
      elim (Option-cases ticket) [
        | inl e ↦
            rw (new, deliver)
              (rw (e, deliver) (record { same = refl; allowed = o'; related = keeps c a s ok r }))
        | inr (v, e) ↦
            rw (new, deliver)
              (rw (e, deliver)
                (redeem-IsAlike (deliver m model f) (deliver m apply f) h v c t' a s ok o' r))
      ]

  deliver-with :
      (f : ℕ) (c : Change P) (t : Tracker (Change P)) (a : A) (s : S)
      → Alike (deliver m model f) (deliver m apply f)
      → Ok c
      → Allowed Ok t.changes
      → R a s
      → IsAlike (deliver m model (suc f) c (with t a)) (deliver m apply (suc f) c (with t s))
  unfolding deliver
  deliver-with f c t a s h ok o r = elim (Bool-cases (m.less_than c.version t.expected_version)) [
    | inl old ↦ rw (old, deliver) (record { same = refl; allowed = o; related = r })
    | inr new ↦ deliver_checked f c t a s h ok o r new
  ]

  pub deliver-IsAlike : (f : ℕ) → Alike (deliver m model f) (deliver m apply f)
  unfolding deliver
  deliver-IsAlike zero c a d ok i = i
  deliver-IsAlike (suc f) c a d ok i =
      let rec =
        deliver-with f c a.tracker a.state d.state (deliver-IsAlike f) ok i.allowed i.related in
      subst
        (λ (x : Tracker (Change P)).
          IsAlike (deliver m model (suc f) c a) (deliver m apply (suc f) c (with x d.state)))
        (sym i.same) rec

  pub deliver_all-IsAlike :
      (f : ℕ) (cs : List (Change P)) (a : Replica P A) (d : Replica P S)
      → All Ok cs
      → IsAlike a d
      → IsAlike (deliver_all m model f cs a) (deliver_all m apply f cs d)
  unfolding deliver_all
  deliver_all-IsAlike f [] a d o i = i
  deliver_all-IsAlike f (c ∷ cs) a d o i =
      deliver_all-IsAlike f cs (deliver m model f c a) (deliver m apply f c d) o.1
        (deliver-IsAlike f c a d o.0 i)
