-- ===== src/Schedule/Database/Kept.antt =====
-- schedule/Database.cpp: what insert_items, clear and apply_delay make of the routes that are stored.
use rmf_traffic.Base.{
  ℕ, suc, ◌+◌, ◌%◌, ◌≤◌, ◌<◌, ◌≡◌, refl, sym, ap, ◌∙◌, subst, false, inl, inr, none, some, List, [],
  ◌∷◌, ◌++◌, arith, All, length, map, ltb, ◌==◌, Bool-cases, Option-cases, length-append,
}
use mathlib.Core.List.{append-nil, append_assoc}
use mathlib.Core.Option.{some-injective}
use rmf_traffic.Base.Modular.{word}
use rmf_traffic.Base.Assoc.{lookup, insert}
use rmf_traffic.Route.{Route}
use rmf_traffic.Schedule.Entry.{RouteEntry, route_of}
use rmf_traffic.Schedule.Database.{
  ParticipantState, ParticipantStorage, Itinerary, with_route, new_entry, insert_from,
  replace_entries,
}
use rmf_traffic.Schedule.Database.Stored.{
  window, Avoids, Distinct, window_next, window_snoc, Has, Holds, IsLong, Found, lookup-insert_same,
  lookup-insert_other, Holds-insert, Found-insert, Holds-append,
}

-- The itinerary that a participant's active routes stand for: their ids follow one another, and the
-- next one follows the last.
pub record Stores (its : Itinerary) (s : ParticipantState) : Type 0 where
  pub first : ℕ
  pub below : first < word
  pub ids : s.active_routes ≡ window first (length its)
  pub next_id : s.next_storage_id ≡ (first + length its) % word
  pub holds : Holds s.storage s.active_routes its

module _ (version participant : ℕ) where
  abbrev pub with_routes : ℕ → Itinerary → ParticipantState → ParticipantState
  with_routes id [] s = s
  with_routes id (r ∷ rs) s = with_routes (suc id) rs (with_route version participant s id r)

  pub insert_from-with_routes :
      (id : ℕ) (rs : Itinerary) (s : ParticipantState)
      → All IsLong rs
      → insert_from version participant id rs s ≡ some (with_routes id rs s)
  unfolding insert_from
  insert_from-with_routes id [] s l = refl
  insert_from-with_routes id (r ∷ rs) s l =
      let long : ltb (length r.trajectory) 2 ≡ false = ground (arith, l.0) in
      rw long (insert_from-with_routes (suc id) rs (with_route version participant s id r) l.1)

  with_route-Stores :
      (id : ℕ) (r : Route) (its : Itinerary) (s : ParticipantState)
      → length its < word
      → Stores its s
      → Stores (its ++ (r ∷ [])) (with_route version participant s id r)
  with_route-Stores id r its s b h =
      let n = length-append its (r ∷ []) in
      let more : length (its ++ (r ∷ [])) ≡ suc (length its) = omega (arith, n) in
      let avoids : Avoids s.next_storage_id s.active_routes =
        rw (h.next_id) (rw (h.ids) (window_next h.first (length its) h.below b)) in
      let e = new_entry version participant s id r in
      record {
        first = h.first;
        below = h.below;
        ids = rw (more) (rw (h.ids) (rw (h.next_id) (window_snoc h.first (length its) h.below)));
        next_id = rw (more) (rw (h.next_id) (omega arith));
        holds =
            Holds-append (insert s.next_storage_id e s.storage) s.active_routes its
              s.next_storage_id r
              (Holds-insert s.next_storage_id e s.storage s.active_routes its avoids h.holds)
              (e, lookup-insert_same s.next_storage_id e s.storage, refl);
      }

  pub with_routes-Stores :
      (id : ℕ) (rs its : Itinerary) (s : ParticipantState)
      → length its + length rs ≤ word
      → Stores its s
      → Stores (its ++ rs) (with_routes id rs s)
  with_routes-Stores id [] its s b h =
      subst (λ (x : Itinerary). Stores x s) (sym (append-nil its)) h
  with_routes-Stores id (r ∷ rs) its s b h =
      let n = length-append its (r ∷ []) in
      subst (λ (x : Itinerary). Stores x (with_routes id (r ∷ rs) s)) (append_assoc its (r ∷ []) rs)
        (with_routes-Stores (suc id) rs (its ++ (r ∷ [])) (with_route version participant s id r)
          (omega (arith, n)) (with_route-Stores id r its s (omega arith) h))

  Found-append :
      (st : ParticipantStorage) (ids : List ℕ) (j : ℕ) (r : Route)
      → Found st ids
      → IsLong r
      → Has st j r
      → Found st (ids ++ (j ∷ []))
  Found-append st [] j r f l h = ((r, l, h), tt)
  Found-append st (i ∷ is) j r f l h = (f.0, Found-append st is j r f.1 l h)

  pub with_routes-Found :
      (id : ℕ) (rs : Itinerary) (s : ParticipantState)
      → All IsLong rs
      → Found s.storage s.active_routes
      → Found (with_routes id rs s).storage (with_routes id rs s).active_routes
  with_routes-Found id [] s l f = f
  with_routes-Found id (r ∷ rs) s l f =
      let e = new_entry version participant s id r in
      with_routes-Found (suc id) rs (with_route version participant s id r) l.1 (
        Found-append (insert s.next_storage_id e s.storage) s.active_routes s.next_storage_id r
          (Found-insert s.next_storage_id e s.storage r s.active_routes l.0 refl f) l.0
          (e, lookup-insert_same s.next_storage_id e s.storage, refl))

abbrev pub Present : ParticipantStorage → List ℕ → Type 0
Present storage ids = All (λ i. (e : RouteEntry) × (lookup i storage ≡ some e)) ids

pub Found-Present : (st : ParticipantStorage) (ids : List ℕ) → Found st ids → Present st ids
Found-Present st [] f = tt
Found-Present st (i ∷ is) ((r, l, (e, at, has)), f) = ((e, at), Found-Present st is f)

Present-insert :
    (j : ℕ) (e : RouteEntry) (st : ParticipantStorage) (ids : List ℕ)
    → Present st ids
    → Present (insert j e st) ids
Present-insert j e st [] f = tt
Present-insert j e st (i ∷ is) f = elim (Bool-cases (j == i)) [
  | inl b ↦
      let same : j ≡ i = ground (arith, b) in
      (
        (e, subst (λ (x : ℕ). lookup x (insert j e st) ≡ some e) same (lookup-insert_same j e st)),
        Present-insert j e st is f.1,
      )
  | inr b ↦ ((f.0.0, lookup-insert_other j i e st b ∙ f.0.1), Present-insert j e st is f.1)
]

module _ (f : ℕ → RouteEntry → RouteEntry) where
  pub replace_entries-some :
      (ids : List ℕ) (st : ParticipantStorage)
      → Present st ids
      → (st' : ParticipantStorage) × (replace_entries f ids st ≡ some st')
  unfolding replace_entries
  replace_entries-some [] st h = (st, refl)
  replace_entries-some (i ∷ is) st ((e, at), h) =
      rw at (replace_entries-some is (insert i (f i e) st) (Present-insert i (f i e) st is h))

  -- Other routes are left alone.
  pub replace_entries_frame :
      (ids : List ℕ) (st st' : ParticipantStorage)
      → replace_entries f ids st ≡ some st'
      → (j : ℕ) → Avoids j ids
      → lookup j st' ≡ lookup j st
  unfolding replace_entries
  replace_entries_frame [] st st' e j a =
      ap (λ (x : ParticipantStorage). lookup j x) (sym (some-injective st st' e))
  replace_entries_frame (i ∷ is) st st' e j a = elim (Option-cases (lookup i st)) [
    | inl missing ↦
        let thrown : replace_entries f (i ∷ is) st ≡ none = rw (missing, replace_entries) refl in
        absurd (cc)
    | inr (x, at) ↦
        let rest : replace_entries f is (insert i (f i x) st) ≡ some st' =
          sym (rw (at, replace_entries) refl) ∙ e in
        replace_entries_frame is (insert i (f i x) st) st' rest j a.1
        ∙ lookup-insert_other i j (f i x) st (ground (arith, a.0))
  ]

  module _ (t : Route → Route)
      (maps : (i : ℕ) (e : RouteEntry) (r : Route)
        → route_of e ≡ some r
        → route_of (f i e) ≡ some (t r))
      (long : (r : Route) → IsLong r → IsLong (t r)) where
    pub replaced-Found :
        (ids all : List ℕ) (st st' : ParticipantStorage)
        → replace_entries f ids st ≡ some st'
        → Found st ids
        → Found st all
        → Found st' all
    unfolding replace_entries
    replaced-Found [] all st st' e h g =
        subst (λ (x : ParticipantStorage). Found x all) (some-injective st st' e) g
    replaced-Found (i ∷ is) all st st' e ((r, l, (x, at, has)), h) g =
        let rest : replace_entries f is (insert i (f i x) st) ≡ some st' =
          sym (rw (at, replace_entries) refl) ∙ e in
        replaced-Found is all (insert i (f i x) st) st' rest
          (Found-insert i (f i x) st (t r) is (long r l) (maps i x r has) h)
          (Found-insert i (f i x) st (t r) all (long r l) (maps i x r has) g)

    pub replaced-Holds :
        (ids : List ℕ) (rs : Itinerary) (st st' : ParticipantStorage)
        → replace_entries f ids st ≡ some st'
        → Distinct ids
        → Holds st ids rs
        → Holds st' ids (map t rs)
    unfolding replace_entries
    replaced-Holds [] [] st st' e d h = tt
    replaced-Holds (i ∷ is) (r ∷ rs) st st' e d ((x, at, has), h) =
        let rest : replace_entries f is (insert i (f i x) st) ≡ some st' =
          sym (rw (at, replace_entries) refl) ∙ e in
        let frame = replace_entries_frame is (insert i (f i x) st) st' rest i d.0 in
        (
          (f i x, frame ∙ lookup-insert_same i (f i x) st, maps i x r has),
          replaced-Holds is rs (insert i (f i x) st) st' rest d.1
              (Holds-insert i (f i x) st is rs d.0 h),
        )
    replaced-Holds [] (r ∷ rs) st st' e d h = absurd h
    replaced-Holds (i ∷ is) [] st st' e d h = absurd h
