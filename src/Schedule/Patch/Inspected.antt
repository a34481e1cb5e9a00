-- ===== src/Schedule/Patch/Inspected.antt =====
-- schedule/Database.cpp and Timeline.hpp: the inspection of the bucket that holds all entries.
use rmf_traffic.Base.{
  ℕ, zero, suc, ◌<◌, ◌≡◌, refl, ap, ◌∙◌, inl, inr, ◌⊎◌, true, false, Option, none, some, List, [],
  ◌∷◌, ◌==◌, if◌then◌else◌, arith, Bool-cases,
}
use rmf_traffic.Base.Modular.{Modular, half}
use rmf_traffic.Base.Assoc.{lookup, lookup_or, lookup_or-insert_same, lookup_or-insert_other}
use rmf_traffic.Schedule.Entry.{
  RouteEntry, inserted, changed, base, Position, get_most_recent, get_last_known_ancestor,
}
use rmf_traffic.Schedule.Database.{ParticipantStorage}
use rmf_traffic.Schedule.Patch.{
  ParticipantChanges, no_changes, Noted, note_change, changing, inspect, same_entry,
}
use rmf_traffic.Schedule.Patch.Ancestor.{walk, known_at, get_last_known_ancestor-known_at}
use rmf_traffic.Schedule.Patch.Log.{DelayLog}
use rmf_traffic.Schedule.Patch.Noting.{Owned, IsLogged, all_relevant, applied, noting}
use rmf_traffic.Schedule.Patch.Steps.{Owned-base}

pub walk-Owned :
    (p id k : ℕ) (e : RouteEntry) (ss : List RouteEntry)
    → Owned p id e
    → ((base (walk k e ss).entry).participant ≡ p) × ((base (walk k e ss).entry).storage_id ≡ id)
walk-Owned p id zero e ss o = Owned-base p id e o
walk-Owned p id (suc k) (inserted b) ss o = o
walk-Owned p id (suc k) (changed b d e) ss o = walk-Owned p id k e (changed b d e ∷ ss) o.2

module _ (chains : ℕ → ParticipantStorage) (logs : ℕ → DelayLog) where
  -- An entry in the bucket: one of those of a stored route
  pub record IsVisit (pos : Position) : Type 0 where
    pub participant : ℕ
    pub storage_id : ℕ
    pub back : ℕ
    pub newest : RouteEntry
    pub held : lookup storage_id (chains participant) ≡ some newest
    pub at : pos ≡ walk back newest []
    pub good : IsLogged (logs participant) participant storage_id newest

  abbrev pub Visited : ℕ → ℕ → List Position → Type 0
  Visited p id [] = ⊥
  Visited p id (pos ∷ ps) =
      (((base pos.entry).participant ≡ p) × ((base pos.entry).storage_id ≡ id)) ⊎ Visited p id ps

  module _ (m : Modular) (after : ℕ) (low : after < half) where
    abbrev pub seen : Position → Noted → Noted
    seen pos noted = inspect m after all_relevant pos noted

    pub inspect_lem :
        (pos : Position) (v : IsVisit pos) (noted : Noted)
        → seen pos noted ≡ (
            if same_entry (known_at after v.newest) v.newest
            then noted
            else changing
                (note_change all_relevant (known_at after v.newest) v.newest)
                (base v.newest).participant
                noted)
    unfolding inspect
    inspect_lem pos v noted =
        let (a, n) = get_last_known_ancestor-known_at m after low v.back v.newest v.good.rises in
        let a' = ap (get_last_known_ancestor m after) v.at ∙ a in
        let n' = ap get_most_recent v.at ∙ n in
        ap
          (λ (x : Option RouteEntry).
            if same_entry x (get_most_recent pos)
            then noted
            else changing (note_change all_relevant x (get_most_recent pos))
                (base (get_most_recent pos)).participant noted)
          a'
        ∙ ap
            (λ (x : RouteEntry).
              if same_entry (known_at after v.newest) x
              then noted
              else changing (note_change all_relevant (known_at after v.newest) x)
                  (base x).participant noted)
            n'

    module _ (p : ℕ) where
      abbrev pub of : Noted → ParticipantChanges
      of noted = lookup_or p no_changes noted

      changing_own :
          (f : Option (ParticipantChanges → ParticipantChanges)) (q : ℕ) (noted : Noted)
          → (q == p) ≡ true
          → of (changing f q noted) ≡ applied f (of noted)
      unfolding changing
      changing_own none q noted h = refl
      changing_own (some f) q noted h =
          let same : q ≡ p = ground (arith, h) in
          lookup_or-insert_same p q no_changes (f (lookup_or q no_changes noted)) noted h
          ∙ (rw same refl)

      changing_other :
          (f : Option (ParticipantChanges → ParticipantChanges)) (q : ℕ) (noted : Noted)
          → (q == p) ≡ false
          → of (changing f q noted) ≡ of noted
      unfolding changing
      changing_other none q noted h = refl
      changing_other (some f) q noted h =
          lookup_or-insert_other p q no_changes (f (lookup_or q no_changes noted)) noted h

      pub seen_own :
          (pos : Position) (v : IsVisit pos) (noted : Noted)
          → v.participant ≡ p
          → of (seen pos noted) ≡ noting after v.newest (of noted)
      seen_own pos v noted h =
          let owner = (Owned-base v.participant v.storage_id v.newest v.good.owned).0 in
          let own : ((base v.newest).participant == p) ≡ true = ground (arith, owner, h) in
          ap of (inspect_lem pos v noted)
          ∙ elim (Bool-cases (same_entry (known_at after v.newest) v.newest)) [
            | inl s ↦ rw s refl
            | inr s ↦ rw s (
                changing_own (note_change all_relevant (known_at after v.newest) v.newest)
                  (base v.newest).participant noted own)
          ]

      pub seen_other :
          (pos : Position) (v : IsVisit pos) (noted : Noted)
          → (v.participant == p) ≡ false
          → of (seen pos noted) ≡ of noted
      seen_other pos v noted h =
          let owner = (Owned-base v.participant v.storage_id v.newest v.good.owned).0 in
          let other : ((base v.newest).participant == p) ≡ false = rw owner h in
          ap of (inspect_lem pos v noted)
          ∙ elim (Bool-cases (same_entry (known_at after v.newest) v.newest)) [
            | inl s ↦ rw s refl
            | inr s ↦ rw s (
                changing_other (note_change all_relevant (known_at after v.newest) v.newest)
                  (base v.newest).participant noted other)
          ]
