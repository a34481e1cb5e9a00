-- ===== src/Schedule/Patch/Upheld.antt =====
-- schedule/Database.cpp: what set, extend, delay and clear uphold of the entries of the stored routes,
-- on which the inspection for a patch relies.
pub mod Calls
pub mod Changes
use rmf_traffic.Base.{
  ℕ, zero, suc, ◌+◌, ◌%◌, ◌≤◌, ◌<◌, ◌≡◌, refl, sym, ap, ◌∙◌, subst, Bool, true, false, Option, inl,
  inr, ◌⊎◌, none, some, List, [], ◌∷◌, ◌++◌, arith, All, Contains, length, map, ◌==◌, if◌then◌else◌,
  Bool-cases, Option-cases, is_empty,
}
use mathlib.Core.Option.{some-injective}
use rmf_traffic.Base.Modular.{Modular, word, half}
use rmf_traffic.Base.Int.{ℤ, ◌+ℤ◌, ltb_ℤ}
use rmf_traffic.Base.Assoc.{lookup, insert}
use rmf_traffic.Route.{Route, Trajectory, delayed}
use rmf_traffic.Schedule.Entry.{RouteEntry, inserted, changed, base, version_of, route_of}
use rmf_traffic.Schedule.Database.{
  ParticipantState, ParticipantStorage, Itinerary, with_route, new_entry, replace_entries,
  cleared_entry, delayed_entry, described_entry, ◌>>=◌, clear, insert_items, apply_delay,
  apply_description_update,
}
use rmf_traffic.Schedule.Database.Stored.{
  Avoids, Distinct, window-Distinct, Has, IsLong, Found, lookup-insert_same, lookup-insert_other,
}
use rmf_traffic.Schedule.Database.Kept.{
  with_routes, insert_from-with_routes, Found-Present, replace_entries-some,
}
use rmf_traffic.Schedule.Database.Delays.{delay_one, delay_one-entry, delay_entries-replace}
use rmf_traffic.Schedule.Database.Serves.{Serves}
use rmf_traffic.Schedule.Patch.Ancestor.{Rises}
use rmf_traffic.Schedule.Patch.Log.{DelayLog, UpTo, UpTo-le, Descends, Logged}
use rmf_traffic.Schedule.Patch.Noting.{Owned, IsLogged}

Avoids-Contains : (i j : ℕ) (ids : List ℕ) → Avoids i ids → Contains j ids → (i == j) ≡ false
Avoids-Contains i j [] a c = absurd c
Avoids-Contains i j (k ∷ ids) a (inl e) = rw e (a.0)
Avoids-Contains i j (k ∷ ids) a (inr c) = Avoids-Contains i j ids a.1 c

-- Where the entry of a route is from, after a replacement
module _ (f : ℕ → RouteEntry → RouteEntry) (j : ℕ) (e' : RouteEntry) where
  abbrev Replaced : List ℕ → ParticipantStorage → Type 0
  Replaced ids st =
      ((e : RouteEntry) × (lookup j st ≡ some e) × Contains j ids × (e' ≡ f j e))
      ⊎ ((lookup j st ≡ some e') × Avoids j ids)

  replace_entries-Replaced :
      (ids : List ℕ) (st st' : ParticipantStorage)
      → replace_entries f ids st ≡ some st'
      → Distinct ids
      → lookup j st' ≡ some e'
      → Replaced ids st
  unfolding replace_entries
  replace_entries-Replaced [] st st' e d at = inr (
    subst (λ (x : ParticipantStorage). lookup j x ≡ some e') (sym (some-injective st st' e)) at,
    tt,
  )
  replace_entries-Replaced (i ∷ is) st st' e d at = elim (Option-cases (lookup i st)) [
    | inl missing ↦
        let thrown : replace_entries f (i ∷ is) st ≡ none = rw (missing, replace_entries) refl in
        absurd (cc)
    | inr (x, found) ↦
        let rest : replace_entries f is (insert i (f i x) st) ≡ some st' =
          sym (rw (found, replace_entries) refl) ∙ e in
        elim (replace_entries-Replaced is (insert i (f i x) st) st' rest d.1 at) [
          | inl (y, there, c, same) ↦
              let other = Avoids-Contains i j is d.0 c in
              inl (y, sym (lookup-insert_other i j (f i x) st other) ∙ there, inr c, same)
          | inr (there, avoids) ↦ elim (Bool-cases (i == j)) [
            | inl own ↦
                let same : i ≡ j = ground (arith, own) in
                let now : some (f i x) ≡ some e' =
                  sym (lookup-insert_same i (f i x) st)
                  ∙ subst (λ (k : ℕ). lookup k (insert i (f i x) st) ≡ some e') (sym same) there in
                inl (
                  x,
                  subst (λ (k : ℕ). lookup k st ≡ some x) same found,
                  inl (sym same),
                  subst (λ (k : ℕ). e' ≡ f k x) same (sym (some-injective (f i x) e' now)),
                )
            | inr other ↦
                let apart : (j == i) ≡ false = ground (arith, other) in
                inr (sym (lookup-insert_other i j (f i x) st other) ∙ there, (apart, avoids))
          ]
        ]
  ]

module _ (p : ℕ) where
  -- An entry of a storage: it follows the log, it is not newer than the schedule, and unless its route
  -- is active, that has been cleared.
  pub record IsKept (v : ℕ) (log : DelayLog) (active : List ℕ) (id : ℕ) (e : RouteEntry)
      : Type 0 where
    pub logged : IsLogged log p id e
    pub old : version_of e ≤ v
    pub cleared : (route_of e ≡ none) ⊎ Contains id active

  pub record IsUpheld (v : ℕ) (log : DelayLog) (s : ParticipantState) : Type 0 where
    pub descends : Descends log
    pub past : UpTo v log
    pub kept :
        (id : ℕ) (e : RouteEntry) → lookup id s.storage ≡ some e → IsKept v log s.active_routes id e

  -- The storage of one participant stays as it is while the schedule goes on.
  pub IsUpheld-later :
      (v w : ℕ) (log : DelayLog) (s : ParticipantState)
      → v ≤ w
      → IsUpheld v log s
      → IsUpheld w log s
  IsUpheld-later v w log s l u = record {
    descends = u.descends;
    past = UpTo-le v w log l u.past;
    kept = λ id e at.
        let k = u.kept id e at in
        let b : version_of e ≤ w = omega (arith, k.old) in
        record { logged = k.logged; old = b; cleared = k.cleared };
  }

  -- A replacement of the active entries at the next version
  module _ (v w : ℕ) (later : v < w) (log log' : DelayLog) (s : ParticipantState)
      (u : IsUpheld v log s) (distinct : Distinct s.active_routes) (active' : List ℕ)
      (f : ℕ → RouteEntry → RouteEntry)
      (steps : (id : ℕ) (e : RouteEntry)
        → lookup id s.storage ≡ some e
        → Contains id s.active_routes
        → IsKept v log s.active_routes id e
        → IsKept w log' active' id (f id e)) where
    replaced-IsKept :
        (st : ParticipantStorage)
        → replace_entries f s.active_routes s.storage ≡ some st
        → (id : ℕ) (e : RouteEntry) → lookup id st ≡ some e
        → IsKept w log' active' id e
    replaced-IsKept st done id e at =
        elim (replace_entries-Replaced f id e s.active_routes s.storage st done distinct at) [
          | inl (x, there, c, same) ↦
              subst (IsKept w log' active' id) (sym same) (steps id x there c (u.kept id x there))
          | inr (there, avoids) ↦ untouched (u.kept id e there) avoids
        ]
      where
        untouched :
            IsKept v log s.active_routes id e
            → Avoids id s.active_routes
            → IsKept w log' active' id e
        untouched k a =
            let gone : route_of e ≡ none = elim (k.cleared) [
              | inl n ↦ n
              | inr c ↦
                  let self : (id == id) ≡ true = ground arith in
                  let other = Avoids-Contains id id s.active_routes a c in absurd (cc)
            ] in
            record {
              logged = record { rises = k.logged.rises; owned = k.logged.owned; logged = inl gone };
              old = omega (arith, k.old, later);
              cleared = inl gone;
            }

  -- The entries that the calls put in the place of a route's newest one
  module _ (v w : ℕ) (later : v < w) (low : w < half) (log : DelayLog) (s : ParticipantState)
      (past : UpTo v log) (active : List ℕ) (id : ℕ) (e : RouteEntry)
      (k : IsKept v log active id e) where
    below : version_of e < w
    below = omega (arith, k.old, later)

    cleared_entry-IsKept : (active' : List ℕ) → IsKept w log active' id (cleared_entry w p s id e)
    cleared_entry-IsKept active' = record {
      logged = record {
        rises = (below, low, k.logged.rises);
        owned = (refl, refl, k.logged.owned);
        logged = inl refl;
      };
      old = omega arith;
      cleared = inl refl;
    }

    there : (r : Route) → route_of e ≡ some r → Logged e log
    there r has = elim (k.logged.logged) [ inl n ↦ absurd (cc) | inr l ↦ l ]

    delayed_entry-IsKept :
        (d : ℤ) (r : Route)
        → route_of e ≡ some r
        → is_empty r.trajectory ≡ false
        → Contains id active
        → IsKept w ((w, d) ∷ log) active id (delayed_entry w p s d id r e)
    delayed_entry-IsKept d r has long c = rw long (record {
      logged = record {
        rises = (below, low, k.logged.rises);
        owned = (refl, refl, k.logged.owned);
        logged = inr (refl, refl, (r, has, refl), there r has);
      };
      old = omega arith;
      cleared = inr c;
    })

    described_entry-IsKept :
        (r : Route)
        → route_of e ≡ some r
        → Contains id active
        → IsKept w log active id (described_entry w p s id e)
    described_entry-IsKept r has c = record {
      logged = record {
        rises = (below, low, k.logged.rises);
        owned = (refl, refl, k.logged.owned);
        logged = inr (UpTo-le v w log (omega (arith, later)) past, refl, there r has);
      };
      old = omega arith;
      cleared = inr c;
    }
