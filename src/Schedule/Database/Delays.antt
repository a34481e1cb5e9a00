-- ===== src/Schedule/Database/Delays.antt =====
-- schedule/Database.cpp: clear, insert_items and apply_delay, by the itinerary that is stored.
use rmf_traffic.Base.{
  ℕ, suc, ◌≡◌, refl, ap, ◌∙◌, subst, Option, none, some, List, [], ◌∷◌, arith, All, length, map,
  if◌then◌else◌, is_empty,
}
use mathlib.Core.Option.{some-injective}
use rmf_traffic.Base.Int.{ℤ}
use rmf_traffic.Base.Assoc.{insert}
use rmf_traffic.Route.{Route, Trajectory, delayed, shift}
use rmf_traffic.Schedule.Entry.{RouteEntry, route_of}
use rmf_traffic.Schedule.Database.{
  ParticipantState, ParticipantStorage, Itinerary, replace_entries, refresh_itinerary,
  delay_entries, delayed_entry,
}
use rmf_traffic.Schedule.Database.Stored.{Holds, IsLong, Found, Found-insert}

length-shift : (d : ℤ) (t : Trajectory) → length (shift d t) ≡ length t
unfolding shift
length-shift d [] = refl
length-shift d (w ∷ ws) = ap suc (length-shift d ws)

pub length-map {ℓ κ} :
    {A : Type ℓ} {B : Type κ} (f : A → B) (xs : List A) → length (map f xs) ≡ length xs
length-map f [] = refl
length-map f (x ∷ xs) = ap suc (length-map f xs)

pub delayed-IsLong : (d : ℤ) (r : Route) → IsLong r → IsLong (delayed d r)
unfolding delayed
delayed-IsLong d r l = omega (arith, length-shift d r.trajectory, l)

-- A delay leaves an empty trajectory as it is.
pub delayed_empty :
    (d : ℤ) (name : ℕ) (t : Trajectory)
    → (if is_empty t
        then record { map_name = name; trajectory = t }
        else delayed d (record { map_name = name; trajectory = t }))
      ≡ delayed d (record { map_name = name; trajectory = t })
unfolding delayed shift
delayed_empty d name [] = refl
delayed_empty d name (w ∷ ws) = refl

module _ (version participant : ℕ) where
  abbrev pub delay_one : ParticipantState → ℤ → ℕ → RouteEntry → RouteEntry
  delay_one s d id e = elim (route_of e) [
    | none ↦ e
    | some r ↦ delayed_entry version participant s d id r e
  ]

  delayed_entry-route :
      (s : ParticipantState) (d : ℤ) (id : ℕ) (e : RouteEntry) (name : ℕ) (t : Trajectory)
      → route_of e ≡ some (record { map_name = name; trajectory = t })
      → route_of
          (delayed_entry version participant s d id (record { map_name = name; trajectory = t }) e)
        ≡ some (delayed d (record { map_name = name; trajectory = t }))
  unfolding delayed shift
  delayed_entry-route s d id e name [] has = has
  delayed_entry-route s d id e name (w ∷ ws) has = refl

  pub delay_one-entry :
      (s : ParticipantState) (d : ℤ) (id : ℕ) (e : RouteEntry) (r : Route)
      → route_of e ≡ some r
      → delay_one s d id e ≡ delayed_entry version participant s d id r e
  delay_one-entry s d id e r has = go (route_of e) has
    where
      go :
          (o : Option Route)
          → o ≡ some r
          → (let x : RouteEntry = elim o [
            | none ↦ e
            | some r' ↦ delayed_entry version participant s d id r' e
          ] in
              x)
            ≡ delayed_entry version participant s d id r e
      go none h = absurd (cc)
      go (some r') h =
          ap (λ (x : Route). delayed_entry version participant s d id x e) (some-injective r' r h)

  pub delay_one-route :
      (s : ParticipantState) (d : ℤ) (id : ℕ) (e : RouteEntry) (r : Route)
      → route_of e ≡ some r
      → route_of (delay_one s d id e) ≡ some (delayed d r)
  delay_one-route s d id e r has =
      ap (λ (x : RouteEntry). route_of x) (delay_one-entry s d id e r has)
      ∙ delayed_entry-route s d id e r.map_name r.trajectory has

  -- The loop of apply_delay where every active route is found
  pub delay_entries-replace :
      (s : ParticipantState) (d : ℤ) (ids : List ℕ) (st : ParticipantStorage)
      → Found st ids
      → delay_entries version participant s d ids st ≡ replace_entries (delay_one s d) ids st
  unfolding delay_entries replace_entries
  delay_entries-replace s d [] st f = refl
  delay_entries-replace s d (i ∷ is) st ((r, l, (e, at, has)), f) =
      let rest = delay_entries-replace s d is (insert i (delay_one s d i e) st) (
        Found-insert i (delay_one s d i e) st (delayed d r) is (delayed-IsLong d r l)
          (delay_one-route s d i e r has) f) in
      rw at (
        rw has (
          subst
            (λ (x : RouteEntry).
              delay_entries version participant s d is (insert i x st)
              ≡ replace_entries (delay_one s d) is (insert i (delay_one s d i e) st))
            (delay_one-entry s d i e r has) rest))

pub refresh_itinerary-Holds :
    (d : ℤ) (ids : List ℕ) (st : ParticipantStorage) (rs : Itinerary)
    → Holds st ids rs
    → refresh_itinerary d ids st ≡ some (map (delayed d) rs)
unfolding refresh_itinerary
refresh_itinerary-Holds d [] st [] h = refl
refresh_itinerary-Holds d (i ∷ is) st (r ∷ rs) ((e, at, has), h) = rw at (
    rw has (
      rw (refresh_itinerary-Holds d is st rs h)
        (rw (delayed_empty d r.map_name r.trajectory) refl)))
refresh_itinerary-Holds d [] st (r ∷ rs) h = absurd h
refresh_itinerary-Holds d (i ∷ is) st [] h = absurd h

pub refresh_itinerary-Found :
    (d : ℤ) (ids : List ℕ) (st : ParticipantStorage)
    → Found st ids
    → (rs : Itinerary) × (refresh_itinerary d ids st ≡ some rs) × All IsLong rs
unfolding refresh_itinerary
refresh_itinerary-Found d [] st f = ([], refl, tt)
refresh_itinerary-Found d (i ∷ is) st ((r, l, (e, at, has)), f) =
    let (rs, got, long) = refresh_itinerary-Found d is st f in
    (
      delayed d r ∷ rs,
      rw at (rw has (rw got (rw (delayed_empty d r.map_name r.trajectory) refl))),
      (delayed-IsLong d r l, long),
    )
