-- ===== src/Schedule/Patch/Whole.antt =====
-- schedule/Database.cpp: all that the inspection of the bucket notes of a participant.
use rmf_traffic.Base.{
  ℕ, ◌<◌, ◌≡◌, refl, sym, ap, ◌∙◌, subst, inl, inr, ◌⊎◌, true, false, some, List, [], ◌∷◌, ◌==◌,
  ◌&&◌, arith, Bool-cases, All,
}
use mathlib.Core.Option.{some-injective}
use rmf_traffic.Base.Modular.{Modular, half}
use rmf_traffic.Base.Assoc.{lookup}
use rmf_traffic.Schedule.Entry.{RouteEntry, base, Position}
use rmf_traffic.Schedule.Database.{ParticipantStorage}
use rmf_traffic.Schedule.Patch.{ParticipantChanges, Noted, inspect_all, contains_pair}
use rmf_traffic.Schedule.Patch.Log.{DelayLog, Descends}
use rmf_traffic.Schedule.Patch.Noting.{IsLogged, IsSound, IsNoted, noting}
use rmf_traffic.Schedule.Patch.Steps.{IsNoted-Extends}
use rmf_traffic.Schedule.Patch.Visits.{visit_notes}
use rmf_traffic.Schedule.Patch.Inspected.{
  walk-Owned, IsVisit, Visited, seen, of, seen_own, seen_other,
}

module _ (chains : ℕ → ParticipantStorage) (logs : ℕ → DelayLog)
    (descends : (q : ℕ) → Descends (logs q)) (m : Modular) (after : ℕ) (low : after < half)
    (p : ℕ) where
  abbrev see : Position → Noted → Noted
  see = seen chains logs m after low

  abbrev noted_of : Noted → ParticipantChanges
  noted_of = of chains logs m after low p

  abbrev Sound : Noted → Type 0
  Sound noted = IsSound after (logs p) (chains p) (noted_of noted)

  abbrev NotedAt : ℕ → RouteEntry → Noted → Type 0
  NotedAt id e noted = IsNoted after (logs p) (chains p) id e (noted_of noted)

  -- One entry of the bucket
  record Looked (pos : Position) (v : IsVisit chains logs pos) (noted noted' : Noted) : Type 0 where
    sound : Sound noted'
    keeps : (id : ℕ) (e : RouteEntry) → NotedAt id e noted → NotedAt id e noted'
    notes : v.participant ≡ p → NotedAt v.storage_id v.newest noted'

  look_own :
      (pos : Position) (v : IsVisit chains logs pos) (noted : Noted)
      → v.participant ≡ p
      → Sound noted
      → Looked pos v noted (see pos noted)
  look_own pos v noted h s =
      let held = subst (λ (x : ℕ). lookup v.storage_id (chains x) ≡ some v.newest) h v.held in
      let good = subst (λ (x : ℕ). IsLogged (logs x) x v.storage_id v.newest) h v.good in
      let step =
        visit_notes after (logs p) (chains p) (descends p) p v.storage_id v.newest held good
          (noted_of noted) s in
      let e = sym (seen_own chains logs m after low p pos v noted h) in
      record {
        sound = subst (IsSound after (logs p) (chains p)) e step.sound;
        keeps = λ id x n. subst (IsNoted after (logs p) (chains p) id x) e (
            IsNoted-Extends after (logs p) (chains p) id x (noted_of noted)
              (noting after v.newest (noted_of noted)) step.extends n);
        notes = λ _. subst (IsNoted after (logs p) (chains p) v.storage_id v.newest) e step.noted;
      }

  look_other :
      (pos : Position) (v : IsVisit chains logs pos) (noted : Noted)
      → (v.participant == p) ≡ false
      → Sound noted
      → Looked pos v noted (see pos noted)
  look_other pos v noted h s =
      let e = sym (seen_other chains logs m after low p pos v noted h) in
      record {
        sound = subst (IsSound after (logs p) (chains p)) e s;
        keeps = λ id x n. subst (IsNoted after (logs p) (chains p) id x) e n;
        notes = λ own. absurd (ground (arith, own, h));
      }

  look :
      (pos : Position) (v : IsVisit chains logs pos) (noted : Noted)
      → Sound noted
      → Looked pos v noted (see pos noted)
  look pos v noted s = elim (Bool-cases (v.participant == p)) [
    | inl h ↦ look_own pos v noted (ground (arith, h)) s
    | inr h ↦ look_other pos v noted h s
  ]

  abbrev Covers : List (ℕ × ℕ) → Noted → Type 0
  Covers checked noted =
      (id : ℕ) (e : RouteEntry)
      → lookup id (chains p) ≡ some e
      → contains_pair p id checked ≡ true
      → NotedAt id e noted

  abbrev after_all : List (ℕ × ℕ) → List Position → Noted → Noted
  after_all checked ps noted = inspect_all (λ _. false) see checked ps noted

  Covers-step :
      (pos : Position) (v : IsVisit chains logs pos) (checked : List (ℕ × ℕ)) (noted : Noted)
      → Sound noted
      → Covers checked noted
      → Covers
          (((base pos.entry).participant, (base pos.entry).storage_id) ∷ checked)
          (see pos noted)
  Covers-step pos v checked noted s c id e held h =
      let l = look pos v noted s in
      let q = (base pos.entry).participant in
      let t = (base pos.entry).storage_id in
      elim (Bool-cases ((q == p) && (t == id))) [
        | inr other ↦
            let old : contains_pair p id checked ≡ true = sym (rw other refl) ∙ h in
            l.keeps id e (c id e held old)
        | inl here ↦
            let owned = walk-Owned v.participant v.storage_id v.back v.newest [] v.good.owned in
            let owner : q ≡ v.participant =
              ap (λ (x : Position). (base x.entry).participant) v.at ∙ owned.0 in
            let name : t ≡ v.storage_id =
              ap (λ (x : Position). (base x.entry).storage_id) v.at ∙ owned.1 in
            let own : v.participant ≡ p = ground (arith, here, owner) in
            let same_id : v.storage_id ≡ id = ground (arith, here, name) in
            let held' =
              subst (λ (x : ℕ). lookup v.storage_id (chains x) ≡ some v.newest) own v.held in
            let same : v.newest ≡ e =
              some-injective v.newest e
                (sym held' ∙ ap (λ (x : ℕ). lookup x (chains p)) same_id ∙ held) in
            subst (λ (x : ℕ). NotedAt x e (see pos noted)) same_id
              (subst (λ (x : RouteEntry). NotedAt v.storage_id x (see pos noted)) same
                (l.notes own))
      ]

  seen_still :
      (q t id : ℕ) (checked : List (ℕ × ℕ))
      → contains_pair p id checked ≡ true
      → contains_pair p id ((q, t) ∷ checked) ≡ true
  seen_still q t id checked h = elim (Bool-cases ((q == p) && (t == id))) [
    | inl e ↦ rw e refl
    | inr e ↦ rw e h
  ]

  seen_now :
      (q t id : ℕ) (checked : List (ℕ × ℕ))
      → q ≡ p
      → t ≡ id
      → contains_pair p id ((q, t) ∷ checked) ≡ true
  seen_now q t id checked o n =
      let e : ((q == p) && (t == id)) ≡ true = ground (arith, o, n) in rw e refl

  pub bucket_noted :
      (ps : List Position) (checked : List (ℕ × ℕ)) (noted : Noted)
      → All (IsVisit chains logs) ps
      → Sound noted
      → Covers checked noted
      → Sound (after_all checked ps noted)
        × ((id : ℕ) (e : RouteEntry)
            → lookup id (chains p) ≡ some e
            → (contains_pair p id checked ≡ true) ⊎ Visited chains logs p id ps
            → NotedAt id e (after_all checked ps noted))
  unfolding inspect_all
  bucket_noted [] checked noted vs s c =
      (s, λ id e held h. elim h [ inl x ↦ c id e held x | inr x ↦ absurd x ])
  bucket_noted (pos ∷ ps) checked noted vs s c =
      elim (Bool-cases
        (contains_pair (base pos.entry).participant (base pos.entry).storage_id checked)) [
          | inl skip ↦
              let rest = bucket_noted ps checked noted vs.1 s c in
              rw skip (
                rest.0,
                λ id e held h. elim h [
                  | inl x ↦ rest.1 id e held (inl x)
                  | inr (inl (o, t)) ↦ rest.1 id e held (
                      inl (
                        subst (λ (y : ℕ). contains_pair p y checked ≡ true) t
                          (subst
                            (λ (y : ℕ). contains_pair y (base pos.entry).storage_id checked ≡ true)
                            o skip)))
                  | inr (inr x) ↦ rest.1 id e held (inr x)
                ],
              )
          | inr new ↦
              let q = (base pos.entry).participant in
              let t = (base pos.entry).storage_id in
              let rest =
                bucket_noted ps ((q, t) ∷ checked) (see pos noted) vs.1
                  (look pos vs.0 noted s).sound (Covers-step pos vs.0 checked noted s c) in
              rw new (
                rest.0,
                λ id e held h. elim h [
                  | inl x ↦ rest.1 id e held (inl (seen_still q t id checked x))
                  | inr (inl (o, n)) ↦ rest.1 id e held (inl (seen_now q t id checked o n))
                  | inr (inr x) ↦ rest.1 id e held (inr x)
                ],
              )
        ]
