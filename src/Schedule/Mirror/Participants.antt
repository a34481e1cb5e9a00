-- ===== src/Schedule/Mirror/Participants.antt =====
-- schedule/Mirror.cpp: the loops of update over the participants of a patch.
use rmf_traffic.Base.{
  ℕ, ◌≡◌, refl, sym, ap, ◌∙◌, subst, inl, inr, true, false, Option, none, some, List, [], ◌∷◌, ◌==◌,
  ◌&&◌, if◌then◌else◌, arith, Bool-cases, Option-cases, All, map, is_empty,
}
use mathlib.Core.Option.{some-injective}
use rmf_traffic.Base.Modular.{Modular}
use rmf_traffic.Base.Int.{ℤ}
use rmf_traffic.Base.Assoc.{Assoc, lookup, lookup_or, lookup_or-insert_same, lookup_or-insert_other}
use rmf_traffic.Schedule.Progress.{no_progress}
use rmf_traffic.Schedule.Database.{◌>>=◌}
use rmf_traffic.Schedule.Patch.{
  Item, ParticipantChanges, no_changes, Noted, ParticipantPatch, Tracked, patch_of, part_patches,
  nothing_changed,
}
use rmf_traffic.Schedule.Patch.Keys.{Unique}
use rmf_traffic.Schedule.Mirror.{
  MirrorStorage, MirrorState, Mirror, blank_state, erase_routes, apply_delays, add_routes,
  update_state, update_participant, update_participants,
}

abbrev pub mirror_storage : ℕ → Mirror → MirrorStorage
mirror_storage p mirror = (lookup_or p blank_state mirror.states).storage

-- What the changes of a participant make of the storage that the mirror has
abbrev pub Becomes : Modular → ℕ → ParticipantChanges → MirrorStorage → MirrorStorage → Type 0
Becomes m p c st st' =
    (s : MirrorState) × (s.storage
      ≡ apply_delays (map (λ (e : ℕ × ℤ). e.1) c.delays) (erase_routes c.erasures st))
    × (st' ≡ (add_routes m p c.additions s).storage)

module _ (m : Modular) where
  idle :
      (p : ℕ) (c : ParticipantChanges) (st : MirrorStorage)
      → nothing_changed c ≡ true
      → Becomes m p c st st
  unfolding apply_delays erase_routes add_routes
  idle p c st h = go c.erasures c.delays c.additions refl refl refl h
    where
      go :
          (er : List ℕ) (ds : List (ℕ × ℤ)) (ad : List Item)
          → c.erasures ≡ er
          → c.delays ≡ ds
          → c.additions ≡ ad
          → (is_empty er && (is_empty ds && is_empty ad)) ≡ true
          → Becomes m p c st st
      go [] [] [] a b d x = (record blank_state { storage = st }, rw (a, b) refl, rw d refl)
      go (e ∷ er) ds ad a b d x = absurd (cc)
      go [] (e ∷ ds) ad a b d x = absurd (cc)
      go [] [] (e ∷ ad) a b d x = absurd (cc)

  update_state-Becomes :
      (after : Option ℕ) (p : ℕ) (c : ParticipantChanges) (t : Tracked) (s : MirrorState)
      → Becomes m p c s.storage (update_state m (patch_of after p c t) s).storage
  unfolding update_state
  update_state-Becomes after p c t s = elim (Option-cases (patch_of after p c t).progress) [
    | inl e ↦ (begun, refl, rw (e, update_state) refl)
    | inr (pr, e) ↦ (begun, refl, rw (e, update_state) refl)
  ]
    where
      begun : MirrorState
      begun = record s {
        itinerary_version = t.last_known_version;
        storage =
            apply_delays (map (λ (e : ℕ × ℤ). e.1) c.delays) (erase_routes c.erasures s.storage);
        progress = if s.current_plan_id == t.state.latest_plan_id then s.progress else no_progress;
        current_plan_id = t.state.latest_plan_id;
      }

  abbrev step_by : Option ℕ → ℕ → ParticipantChanges → Tracked → Mirror → Mirror
  step_by after q c t mirror = update_participant m (patch_of after q c t) mirror

  found_state :
      (p : ℕ) (states : Assoc MirrorState) (s : MirrorState)
      → lookup p states ≡ some s
      → lookup_or p blank_state states ≡ s
  found_state p [] s h = absurd (cc)
  found_state p ((k, x) ∷ states) s h = elim (Bool-cases (k == p)) [
    | inl e ↦ rw e (some-injective x s (sym (rw e refl) ∙ h))
    | inr e ↦ rw e (found_state p states s (sym (rw e refl) ∙ h))
  ]

  missing_state :
      (p : ℕ) (states : Assoc MirrorState)
      → lookup p states ≡ none
      → lookup_or p blank_state states ≡ blank_state
  missing_state p [] h = refl
  missing_state p ((k, x) ∷ states) h = elim (Bool-cases (k == p)) [
    | inl e ↦ let found : lookup p ((k, x) ∷ states) ≡ some x = rw e refl in absurd (cc)
    | inr e ↦ rw e (missing_state p states (sym (rw e refl) ∙ h))
  ]

  module _ (after : Option ℕ) (q : ℕ) (c : ParticipantChanges) (t : Tracked) (mirror : Mirror) where
    step_own :
        Becomes m q c (mirror_storage q mirror) (mirror_storage q (step_by after q c t mirror))
    unfolding update_participant
    step_own =
        let self : (q == q) ≡ true = ground arith in
        elim (Option-cases (lookup q mirror.states)) [
          | inr (s, e) ↦
              let was = found_state q mirror.states s e in
              let now : mirror_storage q (step_by after q c t mirror)
                  ≡ (update_state m (patch_of after q c t) s).storage =
                rw (e, update_participant)
                  (ap (λ (x : MirrorState). x.storage)
                    (lookup_or-insert_same q q blank_state (update_state m (patch_of after q c t) s)
                      mirror.states self)) in
              subst
                (λ (x : MirrorStorage).
                  Becomes m q c x (mirror_storage q (step_by after q c t mirror)))
                (sym (ap (λ (x : MirrorState). x.storage) was))
                (subst (λ (x : MirrorStorage). Becomes m q c s.storage x) (sym now)
                  (update_state-Becomes after q c t s))
          | inl e ↦
              let was = missing_state q mirror.states e in
              let s : MirrorState = record blank_state {
                description = lookup_or q none mirror.descriptions;
              } in
              let now : mirror_storage q (step_by after q c t mirror)
                  ≡ (update_state m (patch_of after q c t) s).storage =
                rw (e, update_participant)
                  (ap (λ (x : MirrorState). x.storage)
                    (lookup_or-insert_same q q blank_state (update_state m (patch_of after q c t) s)
                      mirror.states self)) in
              subst
                (λ (x : MirrorStorage).
                  Becomes m q c x (mirror_storage q (step_by after q c t mirror)))
                (sym (ap (λ (x : MirrorState). x.storage) was))
                (subst (λ (x : MirrorStorage). Becomes m q c s.storage x) (sym now)
                  (update_state-Becomes after q c t s))
        ]

    step_other :
        (p : ℕ)
        → (q == p) ≡ false
        → mirror_storage p (step_by after q c t mirror) ≡ mirror_storage p mirror
    unfolding update_participant
    step_other p h = elim (Option-cases (lookup q mirror.states)) [
      | inr (s, e) ↦
          rw (e, update_participant)
            (ap (λ (x : MirrorState). x.storage)
              (lookup_or-insert_other p q blank_state (update_state m (patch_of after q c t) s)
                mirror.states h))
      | inl e ↦
          rw (e, update_participant)
            (ap (λ (x : MirrorState). x.storage)
              (lookup_or-insert_other p q blank_state
                (update_state m (patch_of after q c t)
                  (record blank_state { description = lookup_or q none mirror.descriptions }))
                mirror.states h))
    ]

  module _ (after : Option ℕ) (states : Assoc Tracked) where
    split :
        (q : ℕ) (c : ParticipantChanges) (noted : Noted) (ps : List ParticipantPatch)
        → part_patches after states ((q, c) ∷ noted) ≡ some ps
        → (t : Tracked) × (rest : List ParticipantPatch) × (part_patches after states noted
            ≡ some rest)
          × (ps ≡ (if nothing_changed c then rest else patch_of after q c t ∷ rest))
    unfolding part_patches
    split q c noted ps e = elim (Option-cases (lookup q states)) [
      | inl n ↦
          let thrown : part_patches after states ((q, c) ∷ noted) ≡ none =
            rw (n, part_patches) refl in
          absurd (cc)
      | inr (t, f) ↦ elim (Option-cases (part_patches after states noted)) [
        | inl n ↦
            let thrown : part_patches after states ((q, c) ∷ noted) ≡ none =
              rw (f, part_patches) (rw (n, ◌>>=◌) refl) in
            absurd (cc)
        | inr (rest, g) ↦
            let result : part_patches after states ((q, c) ∷ noted)
                ≡ some (if nothing_changed c then rest else patch_of after q c t ∷ rest) =
              rw (f, part_patches) (rw (g, ◌>>=◌) refl) in
            (t, rest, g, some-injective ps _ (sym e ∙ result))
      ]
    ]

    -- A participant that the patch is not about is left alone.
    patches_absent :
        (noted : Noted) (ps : List ParticipantPatch) (p : ℕ) (mirror : Mirror)
        → part_patches after states noted ≡ some ps
        → All (λ e. (e.0 == p) ≡ false) noted
        → mirror_storage p (update_participants m ps mirror) ≡ mirror_storage p mirror
    unfolding part_patches update_participants
    patches_absent [] ps p mirror e a =
        ap (λ (x : List ParticipantPatch). mirror_storage p (update_participants m x mirror))
          (sym (some-injective [] ps e))
    patches_absent ((q, c) ∷ noted) ps p mirror e a =
        let (t, rest, rests, whole) = split q c noted ps e in
        elim (Bool-cases (nothing_changed c)) [
          | inl still ↦
              let shorter : ps ≡ rest = whole ∙ (rw still refl) in
              ap (λ (x : List ParticipantPatch). mirror_storage p (update_participants m x mirror))
                shorter
              ∙ patches_absent noted rest p mirror rests a.1
          | inr busy ↦
              let longer : ps ≡ patch_of after q c t ∷ rest = whole ∙ (rw busy refl) in
              ap (λ (x : List ParticipantPatch). mirror_storage p (update_participants m x mirror))
                longer
              ∙ patches_absent noted rest p (step_by after q c t mirror) rests a.1
              ∙ step_other after q c t mirror p a.0
        ]

    others :
        (q p : ℕ) (noted : Noted)
        → (q == p) ≡ true
        → All (λ e. (q == e.0) ≡ false) noted
        → All (λ e. (e.0 == p) ≡ false) noted
    others q p [] h a = tt
    others q p (e ∷ noted) h a =
        let b : (e.0 == p) ≡ false = ground (arith, h, a.0) in (b, others q p noted h a.1)

    -- What the participants of a patch make of the mirror's storage of any participant
    pub update_participants-Becomes :
        (noted : Noted) (ps : List ParticipantPatch) (p : ℕ) (mirror : Mirror)
        → part_patches after states noted ≡ some ps
        → Unique noted
        → Becomes m p
            (lookup_or p no_changes noted)
            (mirror_storage p mirror)
            (mirror_storage p (update_participants m ps mirror))
    unfolding part_patches update_participants
    update_participants-Becomes [] ps p mirror e u =
        subst
          (λ (x : List ParticipantPatch).
            Becomes m p no_changes (mirror_storage p mirror)
              (mirror_storage p (update_participants m x mirror)))
          (some-injective [] ps e) (idle p no_changes (mirror_storage p mirror) refl)
    update_participants-Becomes ((q, c) ∷ noted) ps p mirror e u =
        let (t, rest, rests, whole) = split q c noted ps e in
        let goal : ParticipantChanges → List ParticipantPatch → Type 0 = λ d x.
          Becomes m p d (mirror_storage p mirror)
            (mirror_storage p (update_participants m x mirror)) in
        elim (Bool-cases (q == p)) [
          | inl own ↦
              let same : q ≡ p = ground (arith, own) in
              let mine : lookup_or p no_changes ((q, c) ∷ noted) ≡ c = rw own refl in
              let alone = others q p noted own u.0 in
              elim (Bool-cases (nothing_changed c)) [
                | inl still ↦
                    let shorter : ps ≡ rest = whole ∙ (rw still refl) in
                    let left = patches_absent noted rest p mirror rests alone in
                    subst (λ (d : ParticipantChanges). goal d ps) (sym mine)
                      (subst (goal c) (sym shorter) (
                        subst (Becomes m p c (mirror_storage p mirror)) (sym left)
                          (idle p c (mirror_storage p mirror) still)))
                | inr busy ↦
                    let longer : ps ≡ patch_of after q c t ∷ rest = whole ∙ (rw busy refl) in
                    let now = step_by after q c t mirror in
                    let left = patches_absent noted rest p now rests alone in
                    let step =
                      subst
                        (λ (x : ℕ). Becomes m x c (mirror_storage x mirror) (mirror_storage x now))
                        same (step_own after q c t mirror) in
                    subst (λ (d : ParticipantChanges). goal d ps) (sym mine)
                      (subst (goal c) (sym longer)
                        (subst (Becomes m p c (mirror_storage p mirror)) (sym left) step))
              ]
          | inr other ↦
              let mine : lookup_or p no_changes ((q, c) ∷ noted) ≡ lookup_or p no_changes noted =
                rw other refl in
              elim (Bool-cases (nothing_changed c)) [
                | inl still ↦
                    let shorter : ps ≡ rest = whole ∙ (rw still refl) in
                    subst (λ (d : ParticipantChanges). goal d ps) (sym mine)
                      (subst (goal (lookup_or p no_changes noted)) (sym shorter)
                        (update_participants-Becomes noted rest p mirror rests u.1))
                | inr busy ↦
                    let longer : ps ≡ patch_of after q c t ∷ rest = whole ∙ (rw busy refl) in
                    let now = step_by after q c t mirror in
                    let step =
                      subst
                        (λ (x : MirrorStorage).
                          Becomes m p (lookup_or p no_changes noted) x
                            (mirror_storage p (update_participants m rest now)))
                        (step_other after q c t mirror p other)
                        (update_participants-Becomes noted rest p now rests u.1) in
                    subst (λ (d : ParticipantChanges). goal d ps) (sym mine)
                      (subst (goal (lookup_or p no_changes noted)) (sym longer) step)
              ]
        ]
