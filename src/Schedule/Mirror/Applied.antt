-- ===== src/Schedule/Mirror/Applied.antt =====
-- schedule/Mirror.cpp: the part of a patch that is about a participant, applied to the mirror's copy of
-- it.
use rmf_traffic.Base.{
  ℕ, ◌≡◌, refl, sym, ap, ◌∙◌, subst, inl, inr, ◌⊎◌, Option, none, some, List, [], ◌∷◌, Option-cases,
  All, Contains, map,
}
use mathlib.Core.Option.{some-injective}
use rmf_traffic.Base.Modular.{Modular}
use rmf_traffic.Base.Int.{ℤ}
use rmf_traffic.Base.Assoc.{lookup}
use rmf_traffic.Route.{Route}
use rmf_traffic.Schedule.Entry.{RouteEntry, route_of}
use rmf_traffic.Schedule.Database.{ParticipantStorage}
use rmf_traffic.Schedule.Patch.{Item, ParticipantChanges}
use rmf_traffic.Schedule.Patch.Ancestor.{known_at}
use rmf_traffic.Schedule.Patch.Log.{DelayLog, recent, delayed_by, Logged, Logged-Since}
use rmf_traffic.Schedule.Patch.Filled.{delay_in_turn, delay_in_turn-onto, onto}
use rmf_traffic.Schedule.Patch.Noting.{
  IsLogged, known_route, Dropped, Added, AddedAt, IsSound, IsNoted, delays_since,
}
use rmf_traffic.Schedule.Mirror.{MirrorStorage, MirrorState, erase_routes, apply_delays, add_routes}
use rmf_traffic.Schedule.Mirror.Routes.{
  route_in, delayed_route, erase_routes-none, erase_routes-in, erase_routes-out,
  route_in-apply_delays, Named, Only, add_routes-in, add_routes-out,
}

-- A route of the entry that a storage id has in the database
abbrev pub stored_route : (RouteEntry → Option Route) → Option RouteEntry → Option Route
stored_route get none = none
stored_route get (some e) = get e

-- A mirror's storage has the routes of the database's, as they were at a version or as they are.
abbrev pub Mirrors : (RouteEntry → Option Route) → ParticipantStorage → MirrorStorage → Type 0
Mirrors get chains storage = (id : ℕ) → route_in id storage ≡ stored_route get (lookup id chains)

All-Contains : {A : Type 0} (P : A → Type 0) (a : A) (xs : List A) → All P xs → Contains a xs → P a
All-Contains P a [] h c = absurd c
All-Contains P a (x ∷ xs) h (inl e) = subst P (sym e) h.0
All-Contains P a (x ∷ xs) h (inr c) = All-Contains P a xs h.1 c

module _ (m : Modular) (after p : ℕ) (log : DelayLog) (chains : ParticipantStorage)
    (good : (id : ℕ) (e : RouteEntry) → lookup id chains ≡ some e → IsLogged log p id e)
    (c : ParticipantChanges) (sound : IsSound after log chains c)
    (noted : (id : ℕ) (e : RouteEntry)
      → lookup id chains ≡ some e
      → IsNoted after log chains id e c) where
  abbrev pub apply_all : MirrorState → MirrorState
  apply_all s = add_routes m p c.additions s

  abbrev pub before_adding : MirrorStorage → MirrorStorage
  before_adding st = apply_delays (map (λ (e : ℕ × ℤ). e.1) c.delays) (erase_routes c.erasures st)

  module _ (id : ℕ) where
    abbrev NamedId : Type 0
    NamedId = Named m p id c.additions

    Named-Added :
        (items : List Item)
        → All (Added after log chains) items
        → Named m p id items
        → (i : Item) × Added after log chains i × (i.storage_id ≡ id)
    Named-Added [] a h = absurd h
    Named-Added (i ∷ is) a (inl h) = (i, a.0, h)
    Named-Added (i ∷ is) a (inr h) = Named-Added is a.1 h

    AddedAt-Named : (items : List Item) → AddedAt after log chains id items → Named m p id items
    AddedAt-Named [] h = absurd h
    AddedAt-Named (i ∷ is) (inl h) = inl h
    AddedAt-Named (i ∷ is) (inr h) = inr (AddedAt-Named is h)

    none-named : lookup id chains ≡ none → NamedId → ⊥
    none-named at n =
        let (i, (e, held, has, new), at_id) = Named-Added c.additions sound.added n in
        let held' = subst (λ (x : ℕ). lookup x chains ≡ some e) at_id held in absurd (cc)

    module _ (e : RouteEntry) (at : lookup id chains ≡ some e) where
      same_entry : (e' : RouteEntry) (j : ℕ) → j ≡ id → lookup j chains ≡ some e' → e' ≡ e
      same_entry e' j h held =
          some-injective e' e (sym (subst (λ (x : ℕ). lookup x chains ≡ some e') h held) ∙ at)

      gone_named : route_of e ≡ none → NamedId → ⊥
      gone_named h n =
          let (i, (e', held, has, new), at_id) = Named-Added c.additions sound.added n in
          let same = same_entry e' i.storage_id at_id held in
          let has' = subst (λ (x : RouteEntry). route_of x ≡ some i.route) same has in absurd (cc)

      known_named : (r : Route) → known_route after e ≡ some r → NamedId → ⊥
      known_named r h n =
          let (i, (e', held, has, new), at_id) = Named-Added c.additions sound.added n in
          let same = same_entry e' i.storage_id at_id held in
          let new' = subst (λ (x : RouteEntry). known_route after x ≡ none) same new in absurd (cc)

      not_dropped : (r : Route) → route_of e ≡ some r → Contains id c.erasures → ⊥
      not_dropped r h n =
          let (e', held, gone, was) =
            All-Contains (Dropped after log chains) id c.erasures sound.dropped n in
          let same = same_entry e' id refl held in
          let gone' = subst (λ (x : RouteEntry). route_of x ≡ none) same gone in absurd (cc)

      Only-route : (r : Route) → route_of e ≡ some r → Only m p id r c.additions
      Only-route r h = go c.additions sound.added
        where
          go : (items : List Item) → All (Added after log chains) items → Only m p id r items
          go [] a = tt
          go (i ∷ is) a = (
            λ at_id.
                let (e', held, has, new) = a.0 in
                let same = same_entry e' i.storage_id at_id held in
                some-injective i.route r
                  (sym (subst (λ (x : RouteEntry). route_of x ≡ some i.route) same has) ∙ h),
            go is a.1,
          )

      logged : (r : Route) → route_of e ≡ some r → Logged e log
      logged r h = go (good id e at).logged
        where
          go : (route_of e ≡ none) ⊎ Logged e log → Logged e log
          go (inl gone) = absurd (cc)
          go (inr l) = l

      -- The delays since the version turn the known route into the newest one.
      delays_meet :
          (r₀ r : Route)
          → known_route after e ≡ some r₀
          → route_of e ≡ some r
          → delay_in_turn (map (λ (x : ℕ × ℤ). x.1) c.delays) r₀ ≡ r
      delays_meet r₀ r k h = elim (Option-cases (known_at after e)) [
        | inl unknown ↦
            let none_known : known_route after e ≡ none = rw (unknown, known_route) refl in
            absurd (cc)
        | inr (last, known) ↦
            let (r', was, now) =
              Logged-Since after e last log (good id e at).rises (logged r h) known in
            let via : known_route after e ≡ route_of last = rw (known, known_route) refl in
            let same : r' ≡ r₀ = some-injective r' r₀ (sym was ∙ sym via ∙ k) in
            let turned : delayed_by (recent after log) r₀ ≡ r =
              subst (λ (x : Route). delayed_by (recent after log) x ≡ r) same
                (some-injective (delayed_by (recent after log) r') r (sym now ∙ h)) in
            in_turn turned ((noted id e at).delays r₀ r k h) sound.delayed
      ]
        where
          all_recent :
              (ds : List (ℕ × ℤ))
              → ds ≡ onto (recent after log) []
              → delay_in_turn (map (λ (x : ℕ × ℤ). x.1) ds) r₀ ≡ delayed_by (recent after log) r₀
          all_recent ds d =
              ap (λ (x : List (ℕ × ℤ)). delay_in_turn (map (λ (y : ℕ × ℤ). y.1) x) r₀) d
              ∙ delay_in_turn-onto (recent after log) [] r₀

          in_turn :
              delayed_by (recent after log) r₀ ≡ r
              → (recent after log ≡ []) ⊎ (c.delays ≡ delays_since after log chains)
              → (c.delays ≡ []) ⊎ (c.delays ≡ delays_since after log chains)
              → delay_in_turn (map (λ (x : ℕ × ℤ). x.1) c.delays) r₀ ≡ r
          in_turn t (inr d) s = all_recent c.delays d ∙ t
          in_turn t (inl n) (inr d) = all_recent c.delays d ∙ t
          in_turn t (inl n) (inl d) =
              ap (λ (x : List (ℕ × ℤ)). delay_in_turn (map (λ (y : ℕ × ℤ). y.1) x) r₀) d
              ∙ ap (λ (x : DelayLog). delayed_by x r₀) (sym n)
              ∙ t

  module _ (s : MirrorState) (st : MirrorStorage) (start : s.storage ≡ before_adding st)
      (copied : Mirrors (known_route after) chains st) (id : ℕ) where
    delayed_part :
        (o : Option Route)
        → route_in id (erase_routes c.erasures st) ≡ o
        → route_in id s.storage ≡ delayed_route (map (λ (x : ℕ × ℤ). x.1) c.delays) o
    delayed_part o h =
        ap (route_in id) start
        ∙ route_in-apply_delays id (map (λ (x : ℕ × ℤ). x.1) c.delays) (erase_routes c.erasures st)
        ∙ ap (delayed_route (map (λ (x : ℕ × ℤ). x.1) c.delays)) h

    stays_none :
        (Named m p id c.additions → ⊥)
        → route_in id st ≡ none
        → route_in id (apply_all s).storage ≡ none
    stays_none n h =
        add_routes-out m p id c.additions s n
        ∙ delayed_part none (erase_routes-none id c.erasures st h)

    at_entry :
        (e : RouteEntry)
        → lookup id chains ≡ some e
        → route_in id st ≡ known_route after e
        → (k o : Option Route) → known_route after e ≡ k
        → route_of e ≡ o
        → route_in id (apply_all s).storage ≡ o
    at_entry e at was none none known gone = stays_none (gone_named id e at gone) (was ∙ known)
    at_entry e at was (some r₀) none known gone =
        add_routes-out m p id c.additions s (gone_named id e at gone)
        ∙ delayed_part none (erase_routes-in id c.erasures st ((noted id e at).drops r₀ known gone))
    at_entry e at was none (some r) known has =
        add_routes-in m p id r c.additions s (Only-route id e at r has)
          (AddedAt-Named id c.additions ((noted id e at).adds r known has))
    at_entry e at was (some r₀) (some r) known has =
        add_routes-out m p id c.additions s (known_named id e at r₀ known)
        ∙ delayed_part (some r₀)
            (erase_routes-out id c.erasures st (not_dropped id e at r has) ∙ was ∙ known)
        ∙ ap (λ (x : Route). some x) (delays_meet id e at r₀ r known has)

    pub applied_at :
        route_in id (apply_all s).storage ≡ stored_route (λ e. route_of e) (lookup id chains)
    applied_at = elim (Option-cases (lookup id chains)) [
      | inl at ↦ stays_none (none-named id at) (copied id ∙ (rw at refl)) ∙ (rw at refl)
      | inr (e, at) ↦
          at_entry e at (copied id ∙ (rw at refl)) (known_route after e) (route_of e) refl refl
          ∙ (rw at refl)
    ]
