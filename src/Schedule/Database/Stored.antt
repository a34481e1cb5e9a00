-- ===== src/Schedule/Database/Stored.antt =====
-- schedule/Database.cpp: the routes that the storage of a participant holds for its active routes.
use rmf_traffic.Base.{
  ℕ, zero, suc, ◌+◌, ◌%◌, ◌-◌, ◌≤◌, ◌<◌, ◌≡◌, refl, ap, ◌∙◌, subst, true, false, inl, inr, some,
  List, [], ◌∷◌, ◌++◌, arith, All, length, map, ◌==◌, Bool-cases,
}
use rmf_traffic.Base.Modular.{word}
use rmf_traffic.Base.Assoc.{lookup, insert, lookup-insert}
use rmf_traffic.Route.{Route}
use rmf_traffic.Schedule.Entry.{RouteEntry, route_of}
use rmf_traffic.Schedule.Database.{ParticipantStorage, Itinerary, routes_at}

-- n storage ids from a base on
abbrev pub window : ℕ → ℕ → List ℕ
window base zero = []
window base (suc n) = base ∷ window ((base + 1) % word) n

abbrev pub Avoids : ℕ → List ℕ → Type 0
Avoids j ids = All (λ i. (j == i) ≡ false) ids

abbrev pub Distinct : List ℕ → Type 0
Distinct [] = Unit
Distinct (i ∷ is) = Avoids i is × Distinct is

window-Avoids :
    (b x n : ℕ) → b < word → x < word → n ≤ (x + word - b) % word → Avoids x (window b n)
window-Avoids b x zero p q h = tt
window-Avoids b x (suc n) p q h =
    (ground arith, window-Avoids ((b + 1) % word) x n (omega arith) q (omega arith))

pub window-Distinct : (b n : ℕ) → b < word → n ≤ word → Distinct (window b n)
window-Distinct b zero p q = tt
window-Distinct b (suc n) p q = (
  window-Avoids ((b + 1) % word) b n (omega arith) p (omega arith),
  window-Distinct ((b + 1) % word) n (omega arith) (omega arith),
)

pub window_next : (b n : ℕ) → b < word → n < word → Avoids ((b + n) % word) (window b n)
window_next b n p q = window-Avoids b ((b + n) % word) n p (omega arith) (omega arith)

pub window_snoc : (b n : ℕ) → b < word → window b n ++ ((b + n) % word ∷ []) ≡ window b (suc n)
window_snoc b zero p = let e : (b + 0) % word ≡ b = omega arith in rw e refl
window_snoc b (suc n) p =
    let e : (b + suc n) % word ≡ ((b + 1) % word + n) % word = omega arith in
    rw e (ap (λ (x : List ℕ). b ∷ x) (window_snoc ((b + 1) % word) n (omega arith)))

-- An entry with a route
abbrev pub Has : ParticipantStorage → ℕ → Route → Type 0
Has storage id r = (e : RouteEntry) × (lookup id storage ≡ some e) × (route_of e ≡ some r)

abbrev pub Holds : ParticipantStorage → List ℕ → Itinerary → Type 0
Holds storage [] [] = Unit
Holds storage (i ∷ is) (r ∷ rs) = Has storage i r × Holds storage is rs
Holds storage [] (r ∷ rs) = ⊥
Holds storage (i ∷ is) [] = ⊥

-- What Timeline::insert wants of a route
abbrev pub IsLong : Route → Type 0
IsLong r = 2 ≤ length r.trajectory

-- Entries with a route for all
abbrev pub Found : ParticipantStorage → List ℕ → Type 0
Found storage ids = All (λ i. (r : Route) × IsLong r × Has storage i r) ids

pub lookup-insert_same :
    (j : ℕ) (e : RouteEntry) (st : ParticipantStorage) → lookup j (insert j e st) ≡ some e
lookup-insert_same j e st =
    let self : (j == j) ≡ true = ground arith in lookup-insert j j e st ∙ (rw self refl)

pub lookup-insert_other :
    (j i : ℕ) (e : RouteEntry) (st : ParticipantStorage)
    → (j == i) ≡ false
    → lookup i (insert j e st) ≡ lookup i st
lookup-insert_other j i e st n = lookup-insert i j e st ∙ (rw n refl)

module _ (j : ℕ) (e : RouteEntry) (st : ParticipantStorage) where
  pub Has-insert : (i : ℕ) (r : Route) → (j == i) ≡ false → Has st i r → Has (insert j e st) i r
  Has-insert i r n (e', at, has) = (e', lookup-insert_other j i e st n ∙ at, has)

  pub Holds-insert :
      (ids : List ℕ) (rs : Itinerary)
      → Avoids j ids
      → Holds st ids rs
      → Holds (insert j e st) ids rs
  Holds-insert [] [] a h = tt
  Holds-insert (i ∷ is) (r ∷ rs) a h = (Has-insert i r a.0 h.0, Holds-insert is rs a.1 h.1)
  Holds-insert [] (r ∷ rs) a h = absurd h
  Holds-insert (i ∷ is) [] a h = absurd h

  pub Found-insert :
      (s : Route) (ids : List ℕ)
      → IsLong s
      → route_of e ≡ some s
      → Found st ids
      → Found (insert j e st) ids
  Found-insert s [] l has f = tt
  Found-insert s (i ∷ is) l has f = elim (Bool-cases (j == i)) [
    | inl b ↦
        let same : j ≡ i = ground (arith, b) in
        (
          (
            s,
            l,
            (
              e,
              subst (λ (x : ℕ). lookup x (insert j e st) ≡ some e) same (lookup-insert_same j e st),
              has,
            ),
          ),
          Found-insert s is l has f.1,
        )
    | inr b ↦ ((f.0.0, f.0.1, Has-insert i f.0.0 b f.0.2), Found-insert s is l has f.1)
  ]

pub Holds-append :
    (st : ParticipantStorage) (ids : List ℕ) (rs : Itinerary) (j : ℕ) (r : Route)
    → Holds st ids rs
    → Has st j r
    → Holds st (ids ++ (j ∷ [])) (rs ++ (r ∷ []))
Holds-append st [] [] j r h g = (g, tt)
Holds-append st (i ∷ is) (s ∷ rs) j r h g = (h.0, Holds-append st is rs j r h.1 g)
Holds-append st [] (s ∷ rs) j r h g = absurd h
Holds-append st (i ∷ is) [] j r h g = absurd h

pub Holds-Found :
    (st : ParticipantStorage) (ids : List ℕ) (rs : Itinerary)
    → All IsLong rs
    → Holds st ids rs
    → Found st ids
Holds-Found st [] [] l h = tt
Holds-Found st (i ∷ is) (r ∷ rs) l h = ((r, l.0, h.0), Holds-Found st is rs l.1 h.1)
Holds-Found st [] (r ∷ rs) l h = absurd h
Holds-Found st (i ∷ is) [] l h = absurd h

pub routes_at-Holds :
    (st : ParticipantStorage) (ids : List ℕ) (rs : Itinerary)
    → Holds st ids rs
    → routes_at ids st ≡ some (map (λ (r : Route). some r) rs)
unfolding routes_at
routes_at-Holds st [] [] h = refl
routes_at-Holds st (i ∷ is) (r ∷ rs) ((e, at, has), h) =
    rw at (rw (routes_at-Holds st is rs h) (rw has refl))
routes_at-Holds st [] (r ∷ rs) h = absurd h
routes_at-Holds st (i ∷ is) [] h = absurd h
