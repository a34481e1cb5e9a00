-- ===== src/Schedule/Patch/Steps.antt =====
-- schedule/Database.cpp: one visit of a patch inspector, in each of the cases of inspect.
use rmf_traffic.Base.{
  ℕ, ◌≤◌, ◌<◌, ◌≡◌, sym, ◌∙◌, inl, inr, ◌⊎◌, none, some, List, [], ◌∷◌, ◌++◌, ltb, arith,
  Bool-cases, All, Contains,
}
use mathlib.Core.Option.{some-injective}
use rmf_traffic.Route.{Route}
use rmf_traffic.Schedule.Entry.{RouteEntry, inserted, changed, base, version_of, route_of, depth}
use rmf_traffic.Schedule.Database.{ParticipantStorage}
use rmf_traffic.Schedule.Patch.{Item, ParticipantChanges}
use rmf_traffic.Schedule.Patch.Ancestor.{known_at, known_at-newer, known_at-none, known_at_self}
use rmf_traffic.Schedule.Patch.Log.{DelayLog, recent}
use rmf_traffic.Schedule.Patch.Collected.{known_at-depth}
use rmf_traffic.Schedule.Patch.Noting.{Owned, known_route, delays_since, IsSound, AddedAt, IsNoted}

pub Owned-base :
    (p id : ℕ) (e : RouteEntry)
    → Owned p id e
    → ((base e).participant ≡ p) × ((base e).storage_id ≡ id)
Owned-base p id (inserted b) o = o
Owned-base p id (changed b d e) o = (o.0, o.1)

-- The last known entry is the newest one or stands below it.
pub known_at-cases :
    (after : ℕ) (e last : RouteEntry)
    → known_at after e ≡ some last
    → ((e ≡ last) × (version_of e ≤ after)) ⊎ (depth last < depth e)
unfolding depth
known_at-cases after (inserted b) last known = elim (Bool-cases (ltb after b.schedule_version)) [
  | inl newer ↦ absurd (cc (known_at-none after b (ground (arith, newer))))
  | inr older ↦
      let h : b.schedule_version ≤ after = ground (arith, older) in
      inl (some-injective (inserted b) last (sym (known_at_self after (inserted b) h) ∙ known), h)
]
known_at-cases after (changed b d p) last known = elim (Bool-cases (ltb after b.schedule_version)) [
  | inl newer ↦ inr (
      omega (
        arith,
        known_at-depth after p last
            (sym (known_at-newer after b d p (ground (arith, newer))) ∙ known),
      ))
  | inr older ↦
      let h : b.schedule_version ≤ after = ground (arith, older) in
      inl (
        some-injective (changed b d p) last (sym (known_at_self after (changed b d p) h) ∙ known),
        h,
      )
]

module _ {A : Type 0} (P : A → Type 0) where
  pub All-snoc : (xs : List A) (x : A) → All P xs → P x → All P (xs ++ (x ∷ []))
  All-snoc [] x a h = (h, tt)
  All-snoc (y ∷ xs) x a h = (a.0, All-snoc xs x a.1 h)

pub Contains-snoc :
    {A : Type 0} (a x : A) (xs : List A) → Contains a xs → Contains a (xs ++ (x ∷ []))
Contains-snoc a x [] h = absurd h
Contains-snoc a x (y ∷ xs) (inl h) = inl h
Contains-snoc a x (y ∷ xs) (inr h) = inr (Contains-snoc a x xs h)

pub Contains-snoc_last : {A : Type 0} (a x : A) (xs : List A) → a ≡ x → Contains a (xs ++ (x ∷ []))
Contains-snoc_last a x [] h = inl h
Contains-snoc_last a x (y ∷ xs) h = inr (Contains-snoc_last a x xs h)

module _ (after : ℕ) (log : DelayLog) (chains : ParticipantStorage) where
  abbrev pub At : ℕ → List Item → Type 0
  At = AddedAt after log chains

  pub At-snoc : (id : ℕ) (i : Item) (is : List Item) → At id is → At id (is ++ (i ∷ []))
  At-snoc id i [] h = absurd h
  At-snoc id i (j ∷ is) (inl h) = inl h
  At-snoc id i (j ∷ is) (inr h) = inr (At-snoc id i is h)

  pub At-snoc_last :
      (id : ℕ) (i : Item) (is : List Item) → i.storage_id ≡ id → At id (is ++ (i ∷ []))
  At-snoc_last id i [] h = inl h
  At-snoc_last id i (j ∷ is) h = inr (At-snoc_last id i is h)

  -- More is noted.
  pub record Extends (c c' : ParticipantChanges) : Type 0 where
    pub drops : (id : ℕ) → Contains id c.erasures → Contains id c'.erasures
    pub adds : (id : ℕ) → At id c.additions → At id c'.additions
    pub delays :
        c.delays ≡ delays_since after log chains → c'.delays ≡ delays_since after log chains

  pub Extends-refl : (c : ParticipantChanges) → Extends c c
  Extends-refl c = record { drops = λ id h. h; adds = λ id h. h; delays = λ h. h }

  pub IsNoted-Extends :
      (id : ℕ) (e : RouteEntry) (c c' : ParticipantChanges)
      → Extends c c'
      → IsNoted after log chains id e c
      → IsNoted after log chains id e c'
  IsNoted-Extends id e c c' x n = record {
    drops = λ r k h. x.drops id (n.drops r k h);
    adds = λ r k h. x.adds id (n.adds r k h);
    delays = λ r s k h. later (n.delays r s k h);
  }
    where
      later :
          (recent after log ≡ []) ⊎ (c.delays ≡ delays_since after log chains)
          → (recent after log ≡ []) ⊎ (c'.delays ≡ delays_since after log chains)
      later (inl h) = inl h
      later (inr h) = inr (x.delays h)

  -- What a visit of the route e makes of what is noted
  pub record Notes (id : ℕ) (e : RouteEntry) (c c' : ParticipantChanges) : Type 0 where
    pub sound : IsSound after log chains c'
    pub noted : IsNoted after log chains id e c'
    pub extends : Extends c c'

  module _ (id : ℕ) (e : RouteEntry) where
    pub noted_never :
        (c : ParticipantChanges)
        → known_route after e ≡ none
        → route_of e ≡ none
        → IsNoted after log chains id e c
    noted_never c k h = record {
      drops = λ r k' h'. absurd (cc);
      adds = λ r k' h'. absurd (cc);
      delays = λ r s k' h'. absurd (cc);
    }

    pub noted_added :
        (c : ParticipantChanges) (s : Route)
        → known_route after e ≡ none
        → route_of e ≡ some s
        → At id c.additions
        → IsNoted after log chains id e c
    noted_added c s k h a = record {
      drops = λ r k' h'. absurd (cc);
      adds = λ r k' h'. a;
      delays = λ r s' k' h'. absurd (cc);
    }

    pub noted_dropped :
        (c : ParticipantChanges) (s : Route)
        → known_route after e ≡ some s
        → route_of e ≡ none
        → Contains id c.erasures
        → IsNoted after log chains id e c
    noted_dropped c s k h a = record {
      drops = λ r k' h'. a;
      adds = λ r k' h'. absurd (cc);
      delays = λ r s' k' h'. absurd (cc);
    }

    pub noted_delayed :
        (c : ParticipantChanges) (s t : Route)
        → known_route after e ≡ some s
        → route_of e ≡ some t
        → (recent after log ≡ []) ⊎ (c.delays ≡ delays_since after log chains)
        → IsNoted after log chains id e c
    noted_delayed c s t k h a = record {
      drops = λ r k' h'. absurd (cc);
      adds = λ r k' h'. absurd (cc);
      delays = λ r s' k' h'. a;
    }
