-- ===== src/Schedule/Patch/Keys.antt =====
-- schedule/Database.cpp: the participants in the map of changes, each of them once and with a state.
use rmf_traffic.Base.{
  ℕ, ◌<◌, ◌≡◌, refl, sym, subst, inl, inr, true, false, Option, none, some, List, [], ◌∷◌, ◌==◌,
  if◌then◌else◌, arith, Bool-cases, All,
}
use rmf_traffic.Base.Modular.{Modular, half}
use rmf_traffic.Base.Assoc.{Assoc, lookup, insert, lookup_or}
use rmf_traffic.Schedule.Entry.{RouteEntry, base, Position}
use rmf_traffic.Schedule.Database.{ParticipantStorage}
use rmf_traffic.Schedule.Patch.{
  ParticipantChanges, no_changes, Noted, note_change, changing, inspect_all, same_entry,
  contains_pair, ParticipantPatch, Tracked, part_patches, nothing_changed, patch_of,
}
use rmf_traffic.Schedule.Patch.Ancestor.{known_at}
use rmf_traffic.Schedule.Patch.Log.{DelayLog}
use rmf_traffic.Schedule.Patch.Noting.{all_relevant}
use rmf_traffic.Schedule.Patch.Steps.{Owned-base}
use rmf_traffic.Schedule.Patch.Inspected.{IsVisit, seen, inspect_lem}

-- Each participant once
abbrev pub Unique : {V : Type 0} → Assoc V → Type 0
Unique [] = Unit
Unique ((k, v) ∷ xs) = All (λ e. (k == e.0) ≡ false) xs × Unique xs

module _ {V : Type 0} where
  insert_others :
      (j k : ℕ) (v : V) (xs : Assoc V)
      → (j == k) ≡ false
      → All (λ e. (j == e.0) ≡ false) xs
      → All (λ e. (j == e.0) ≡ false) (insert k v xs)
  insert_others j k v [] h a = (h, tt)
  insert_others j k v ((i, w) ∷ xs) h a = elim (Bool-cases (i == k)) [
    | inl e ↦ rw e (h, a.1)
    | inr e ↦ rw e (a.0, insert_others j k v xs h a.1)
  ]

  same_others :
      (j k : ℕ) (xs : Assoc V)
      → (j == k) ≡ true
      → All (λ e. (j == e.0) ≡ false) xs
      → All (λ e. (k == e.0) ≡ false) xs
  same_others j k xs h a =
      let same : j ≡ k = ground (arith, h) in
      subst (λ (x : ℕ). All (λ e. (x == e.0) ≡ false) xs) same a

  Unique-insert : (k : ℕ) (v : V) (xs : Assoc V) → Unique xs → Unique (insert k v xs)
  Unique-insert k v [] u = (tt, tt)
  Unique-insert k v ((i, w) ∷ xs) u = elim (Bool-cases (i == k)) [
    | inl e ↦ rw e (same_others i k xs e u.0, u.1)
    | inr e ↦ rw e (insert_others i k v xs e u.0, Unique-insert k v xs u.1)
  ]

  module _ (P : ℕ → Type 0) where
    keys-insert :
        (k : ℕ) (v : V) (xs : Assoc V)
        → P k
        → All (λ e. P e.0) xs
        → All (λ e. P e.0) (insert k v xs)
    keys-insert k v [] h a = (h, tt)
    keys-insert k v ((i, w) ∷ xs) h a = elim (Bool-cases (i == k)) [
      | inl e ↦ rw e (h, a.1)
      | inr e ↦ rw e (a.0, keys-insert k v xs h a.1)
    ]

module _ (chains : ℕ → ParticipantStorage) (logs : ℕ → DelayLog) (m : Modular) (after : ℕ)
    (low : after < half) (P : ℕ → Type 0)
    (there : (p id : ℕ) (e : RouteEntry) → lookup id (chains p) ≡ some e → P p) where
  abbrev pub HasKeys : Noted → Type 0
  HasKeys noted = Unique noted × All (λ e. P e.0) noted

  changing-HasKeys :
      (f : Option (ParticipantChanges → ParticipantChanges)) (k : ℕ) (noted : Noted)
      → P k
      → HasKeys noted
      → HasKeys (changing f k noted)
  unfolding changing
  changing-HasKeys none k noted pk h = h
  changing-HasKeys (some g) k noted pk h = (
    Unique-insert k (g (lookup_or k no_changes noted)) noted h.0,
    keys-insert P k (g (lookup_or k no_changes noted)) noted pk h.1,
  )

  seen-HasKeys :
      (pos : Position) (v : IsVisit chains logs pos) (noted : Noted)
      → HasKeys noted
      → HasKeys (seen chains logs m after low pos noted)
  seen-HasKeys pos v noted h =
      let owner = (Owned-base v.participant v.storage_id v.newest v.good.owned).0 in
      let k = (base v.newest).participant in
      let pk : P k = subst P (sym owner) (there v.participant v.storage_id v.newest v.held) in
      subst HasKeys (sym (inspect_lem chains logs m after low pos v noted))
        (elim (Bool-cases (same_entry (known_at after v.newest) v.newest)) [
          | inl s ↦ rw s h
          | inr s ↦ rw s (
              changing-HasKeys (note_change all_relevant (known_at after v.newest) v.newest) k noted
                pk h)
        ])

  pub inspect_all-HasKeys :
      (ps : List Position) (checked : List (ℕ × ℕ)) (noted : Noted)
      → All (IsVisit chains logs) ps
      → HasKeys noted
      → HasKeys (inspect_all (λ _. false) (seen chains logs m after low) checked ps noted)
  unfolding inspect_all
  inspect_all-HasKeys [] checked noted vs h = h
  inspect_all-HasKeys (pos ∷ ps) checked noted vs h =
      elim (Bool-cases
        (contains_pair (base pos.entry).participant (base pos.entry).storage_id checked)) [
          | inl skip ↦ rw skip (inspect_all-HasKeys ps checked noted vs.1 h)
          | inr new ↦ rw new (
              inspect_all-HasKeys ps
                (((base pos.entry).participant, (base pos.entry).storage_id) ∷ checked)
                (seen chains logs m after low pos noted) vs.1 (seen-HasKeys pos vs.0 noted h))
        ]

-- states.at finds every participant that is noted.
pub part_patches-some :
    (after : Option ℕ) (states : Assoc Tracked) (noted : Noted)
    → All (λ e. (t : Tracked) × (lookup e.0 states ≡ some t)) noted
    → (ps : List ParticipantPatch) × (part_patches after states noted ≡ some ps)
unfolding part_patches
part_patches-some after states [] a = ([], refl)
part_patches-some after states ((p, c) ∷ noted) a =
    let (rest, e) = part_patches-some after states noted a.1 in
    (if nothing_changed c then rest else patch_of after p c a.0.0 ∷ rest, rw (a.0.1) (rw e refl))
