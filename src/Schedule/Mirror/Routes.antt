-- ===== src/Schedule/Mirror/Routes.antt =====
-- schedule/Mirror.cpp: the route that a mirror has at a storage id, after each part of an update.
use rmf_traffic.Base.{
  ℕ, ◌≡◌, refl, sym, ap, ◌∙◌, inl, inr, ◌⊎◌, true, Option, none, some, List, [], ◌∷◌, ◌==◌,
  if◌then◌else◌, arith, Bool-cases, All, Contains, is_empty,
}
use rmf_traffic.Base.Modular.{Modular}
use rmf_traffic.Base.Int.{ℤ}
use rmf_traffic.Base.Assoc.{lookup, erase, lookup-erase, lookup-insert, map_values}
use rmf_traffic.Route.{Route, delayed}
use rmf_traffic.Schedule.Database.Delays.{delayed_empty}
use rmf_traffic.Schedule.Patch.{Item}
use rmf_traffic.Schedule.Patch.Filled.{delay_in_turn}
use rmf_traffic.Schedule.Mirror.{
  MirrorEntry, MirrorStorage, MirrorState, erase_routes, apply_delays, delay_mirror_entry,
  add_route, add_routes,
}

abbrev pub entry_route : Option MirrorEntry → Option Route
entry_route none = none
entry_route (some e) = some e.route

abbrev pub route_in : ℕ → MirrorStorage → Option Route
route_in id storage = entry_route (lookup id storage)

abbrev pub delayed_route : List ℤ → Option Route → Option Route
delayed_route ds none = none
delayed_route ds (some r) = some (delay_in_turn ds r)

delay_mirror_entry-route :
    (d : ℤ) (k : ℕ) (e : MirrorEntry) → (delay_mirror_entry d k e).route ≡ delayed d e.route
delay_mirror_entry-route d k e =
    let empty = delayed_empty d e.route.map_name e.route.trajectory in
    elim (Bool-cases (is_empty e.route.trajectory)) [
      | inl h ↦ rw h (sym (rw h refl) ∙ empty)
      | inr h ↦ rw h refl
    ]

module _ (id : ℕ) where
  erase_one :
      (k : ℕ) (storage : MirrorStorage)
      → route_in id (erase k storage) ≡ (if k == id then none else route_in id storage)
  erase_one k storage = elim (Bool-cases (k == id)) [
    | inl e ↦ ap entry_route (lookup-erase id k storage) ∙ (rw e refl)
    | inr e ↦ ap entry_route (lookup-erase id k storage) ∙ (rw e refl)
  ]

  pub erase_routes-none :
      (ids : List ℕ) (storage : MirrorStorage)
      → route_in id storage ≡ none
      → route_in id (erase_routes ids storage) ≡ none
  unfolding erase_routes
  erase_routes-none [] storage h = h
  erase_routes-none (k ∷ ks) storage h =
      erase_routes-none ks (erase k storage)
        (erase_one k storage ∙ elim (Bool-cases (k == id)) [ inl e ↦ rw e refl | inr e ↦ rw e h ])

  pub erase_routes-in :
      (ids : List ℕ) (storage : MirrorStorage)
      → Contains id ids
      → route_in id (erase_routes ids storage) ≡ none
  unfolding erase_routes
  erase_routes-in [] storage h = absurd h
  erase_routes-in (k ∷ ks) storage (inl h) =
      let e : (k == id) ≡ true = ground (arith, h) in
      erase_routes-none ks (erase k storage) (erase_one k storage ∙ (rw e refl))
  erase_routes-in (k ∷ ks) storage (inr h) = erase_routes-in ks (erase k storage) h

  pub erase_routes-out :
      (ids : List ℕ) (storage : MirrorStorage)
      → (Contains id ids → ⊥)
      → route_in id (erase_routes ids storage) ≡ route_in id storage
  unfolding erase_routes
  erase_routes-out [] storage h = refl
  erase_routes-out (k ∷ ks) storage h = elim (Bool-cases (k == id)) [
    | inl e ↦ absurd (h (inl (ground (arith, e))))
    | inr e ↦
        erase_routes-out ks (erase k storage) (λ x. h (inr x)) ∙ erase_one k storage ∙ (rw e refl)
  ]

  delay_one :
      (d : ℤ) (storage : MirrorStorage)
      → route_in id (map_values (delay_mirror_entry d) storage)
        ≡ delayed_route (d ∷ []) (route_in id storage)
  delay_one d [] = refl
  delay_one d ((k, e) ∷ storage) = elim (Bool-cases (k == id)) [
    | inl h ↦ rw h (ap (λ (r : Route). some r) (delay_mirror_entry-route d k e))
    | inr h ↦ rw h (delay_one d storage)
  ]

  pub route_in-apply_delays :
      (ds : List ℤ) (storage : MirrorStorage)
      → route_in id (apply_delays ds storage) ≡ delayed_route ds (route_in id storage)
  unfolding apply_delays
  route_in-apply_delays [] storage = nothing (route_in id storage)
    where
      nothing : (o : Option Route) → o ≡ delayed_route [] o
      nothing none = refl
      nothing (some r) = refl
  route_in-apply_delays (d ∷ ds) storage =
      route_in-apply_delays ds (map_values (delay_mirror_entry d) storage)
      ∙ ap (delayed_route ds) (delay_one d storage)
      ∙ in_turn (route_in id storage)
    where
      in_turn :
          (o : Option Route)
          → delayed_route ds (delayed_route (d ∷ []) o) ≡ delayed_route (d ∷ ds) o
      in_turn none = refl
      in_turn (some r) = refl

-- The last of the items of a storage id stays.
module _ (m : Modular) (p id : ℕ) where
  abbrev pub Only : Route → List Item → Type 0
  Only r items = All (λ (i : Item). i.storage_id ≡ id → i.route ≡ r) items

  abbrev pub Named : List Item → Type 0
  Named [] = ⊥
  Named (i ∷ is) = (i.storage_id ≡ id) ⊎ Named is

  add_one :
      (i : Item) (s : MirrorState)
      → route_in id (add_route m p i.route_id i.storage_id i.route s).storage
        ≡ (if i.storage_id == id then some i.route else route_in id s.storage)
  add_one i s = elim (Bool-cases (i.storage_id == id)) [
    | inl e ↦ ap entry_route (lookup-insert id i.storage_id _ s.storage) ∙ (rw e refl)
    | inr e ↦ ap entry_route (lookup-insert id i.storage_id _ s.storage) ∙ (rw e refl)
  ]

  add_routes-kept :
      (r : Route) (items : List Item) (s : MirrorState)
      → Only r items
      → route_in id s.storage ≡ some r
      → route_in id (add_routes m p items s).storage ≡ some r
  unfolding add_routes
  add_routes-kept r [] s o h = h
  add_routes-kept r (i ∷ is) s o h =
      add_routes-kept r is (add_route m p i.route_id i.storage_id i.route s) o.1 (
        add_one i s ∙ elim (Bool-cases (i.storage_id == id)) [
          | inl e ↦ rw e (ap (λ (x : Route). some x) (o.0 (ground (arith, e))))
          | inr e ↦ rw e h
        ])

  pub add_routes-in :
      (r : Route) (items : List Item) (s : MirrorState)
      → Only r items
      → Named items
      → route_in id (add_routes m p items s).storage ≡ some r
  unfolding add_routes
  add_routes-in r [] s o h = absurd h
  add_routes-in r (i ∷ is) s o (inl h) =
      let e : (i.storage_id == id) ≡ true = ground (arith, h) in
      add_routes-kept r is (add_route m p i.route_id i.storage_id i.route s) o.1
        (add_one i s ∙ (rw e (ap (λ (x : Route). some x) (o.0 h))))
  add_routes-in r (i ∷ is) s o (inr h) =
      add_routes-in r is (add_route m p i.route_id i.storage_id i.route s) o.1 h

  pub add_routes-out :
      (items : List Item) (s : MirrorState)
      → (Named items → ⊥)
      → route_in id (add_routes m p items s).storage ≡ route_in id s.storage
  unfolding add_routes
  add_routes-out [] s h = refl
  add_routes-out (i ∷ is) s h = elim (Bool-cases (i.storage_id == id)) [
    | inl e ↦ absurd (h (inl (ground (arith, e))))
    | inr e ↦
        add_routes-out is (add_route m p i.route_id i.storage_id i.route s) (λ x. h (inr x))
        ∙ add_one i s
        ∙ (rw e refl)
  ]
