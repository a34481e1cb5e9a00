-- ===== src/Schedule/Patch/Ancestor.antt =====
-- schedule/Database.cpp: get_last_known_ancestor, by the versions of the entries of a route.
use rmf_traffic.Base.{
  ℕ, zero, suc, ◌≤◌, ◌<◌, ◌≡◌, refl, sym, ap, ◌∙◌, inl, inr, true, false, Option, none, some, List,
  [], ◌∷◌, ltb, if◌then◌else◌, arith, Bool-cases,
}
use rmf_traffic.Base.Modular.{Modular, half, less_than-ltb}
use rmf_traffic.Base.Int.{ℤ}
use rmf_traffic.Schedule.Entry.{
  BaseRouteEntry, RouteEntry, inserted, changed, version_of, Position, last_of, get_most_recent,
  known_successor, ancestor_from, get_last_known_ancestor,
}

-- The entry that is k steps behind the newest one; the walk stops at the oldest.
abbrev pub walk : ℕ → RouteEntry → List RouteEntry → Position
walk zero e ss = record { entry = e; successors = ss }
walk (suc k) (inserted b) ss = record { entry = inserted b; successors = ss }
walk (suc k) (changed b d p) ss = walk k p (changed b d p ∷ ss)

-- Versions rise along the entries of a route, in the lower half of the counter.
abbrev pub Rises : RouteEntry → Type 0
Rises (inserted b) = b.schedule_version < half
Rises (changed b d p) = (version_of p < b.schedule_version) × (b.schedule_version < half) × Rises p

pub Rises-low : (e : RouteEntry) → Rises e → version_of e < half
Rises-low (inserted b) r = r
Rises-low (changed b d p) r = r.1

-- The newest entry that is not newer than a version
unfoldable pub known_at : ℕ → RouteEntry → Option RouteEntry
known_at after (inserted b) = if ltb after b.schedule_version then none else some (inserted b)
known_at after (changed b d p) =
    let rest = known_at after p in
    if ltb after b.schedule_version then rest else some (changed b d p)

pub get_most_recent-walk :
    (k : ℕ) (e : RouteEntry) (ss : List RouteEntry) → get_most_recent (walk k e ss) ≡ last_of e ss
unfolding get_most_recent
get_most_recent-walk zero e ss = refl
get_most_recent-walk (suc k) (inserted b) ss = refl
get_most_recent-walk (suc k) (changed b d p) ss = get_most_recent-walk k p (changed b d p ∷ ss)

pub known_at-newer :
    (after : ℕ) (b : BaseRouteEntry) (d : Option ℤ) (p : RouteEntry)
    → after < b.schedule_version
    → known_at after (changed b d p) ≡ known_at after p
unfolding known_at
known_at-newer after b d p h =
    let e : ltb after b.schedule_version ≡ true = ground arith in rw e refl

pub known_at-none :
    (after : ℕ) (b : BaseRouteEntry)
    → after < b.schedule_version
    → known_at after (inserted b) ≡ none
unfolding known_at
known_at-none after b h = let e : ltb after b.schedule_version ≡ true = ground arith in rw e refl

pub known_at_self : (after : ℕ) (e : RouteEntry) → version_of e ≤ after → known_at after e ≡ some e
unfolding known_at
known_at_self after (inserted b) h =
    let e : ltb after b.schedule_version ≡ false = ground arith in rw e refl
known_at_self after (changed b d p) h =
    let e : ltb after b.schedule_version ≡ false = ground arith in rw e refl

-- The successors of an entry, each made from the one before
abbrev Stacked : RouteEntry → List RouteEntry → Type 0
Stacked e [] = Unit
Stacked e (inserted b ∷ ss) = ⊥
Stacked e (changed b d p ∷ ss) =
    (p ≡ e)
    × (version_of e < b.schedule_version)
    × (b.schedule_version < half)
    × Stacked (changed b d p) ss

module _ (m : Modular) (after : ℕ) (low : after < half) where
  -- Where the version of an entry is newer, so are those of its successors.
  known_at-last_of :
      (e : RouteEntry) (ss : List RouteEntry)
      → Stacked e ss
      → after < version_of e
      → known_at after (last_of e ss) ≡ known_at after e
  unfolding last_of
  known_at-last_of e [] st h = refl
  known_at-last_of e (inserted b ∷ ss) st h = absurd st
  known_at-last_of e (changed b d p ∷ ss) st h =
      known_at-last_of (changed b d p) ss st.3 (omega (arith, h, st.1))
      ∙ known_at-newer after b d p (omega (arith, h, st.1))
      ∙ ap (known_at after) st.0

  known_successor-known_at :
      (e : RouteEntry) (ss : List RouteEntry)
      → Stacked e ss
      → known_at after e ≡ some e
      → some (known_successor m after e ss) ≡ known_at after (last_of e ss)
  unfolding known_successor last_of
  known_successor-known_at e [] st h = sym h
  known_successor-known_at e (inserted b ∷ ss) st h = absurd st
  known_successor-known_at e (changed b d p ∷ ss) st h =
      elim (Bool-cases (ltb after b.schedule_version)) [
        | inl newer ↦
            let near : m.less_than after b.schedule_version ≡ true =
              less_than-ltb m after b.schedule_version low st.2 ∙ newer in
            let more : after < b.schedule_version = ground (arith, newer) in
            rw near (
              sym (
                known_at-last_of (changed b d p) ss st.3 more
                ∙ known_at-newer after b d p more
                ∙ ap (known_at after) st.0
                ∙ h))
        | inr older ↦
            let near : m.less_than after b.schedule_version ≡ false =
              less_than-ltb m after b.schedule_version low st.2 ∙ older in
            rw near (
              known_successor-known_at (changed b d p) ss st.3
                (known_at_self after (changed b d p) (ground (arith, older))))
      ]

  ancestor_from-known_at :
      (e : RouteEntry) (ss : List RouteEntry)
      → Rises e
      → Stacked e ss
      → ancestor_from m after e ss ≡ known_at after (last_of e ss)
  unfolding ancestor_from last_of
  ancestor_from-known_at (inserted b) ss r st = elim (Bool-cases (ltb after b.schedule_version)) [
    | inl newer ↦
        let near : m.less_than after b.schedule_version ≡ true =
          less_than-ltb m after b.schedule_version low r ∙ newer in
        rw near (
          sym (
            known_at-last_of (inserted b) ss st (ground (arith, newer))
            ∙ known_at-none after b (ground (arith, newer))))
    | inr older ↦
        let near : m.less_than after b.schedule_version ≡ false =
          less_than-ltb m after b.schedule_version low r ∙ older in
        rw near (
          known_successor-known_at (inserted b) ss st
            (known_at_self after (inserted b) (ground (arith, older))))
  ]
  ancestor_from-known_at (changed b d p) ss r st =
      elim (Bool-cases (ltb after b.schedule_version)) [
        | inl newer ↦
            let near : m.less_than after b.schedule_version ≡ true =
              less_than-ltb m after b.schedule_version low r.1 ∙ newer in
            rw near (ancestor_from-known_at p (changed b d p ∷ ss) r.2 (refl, r.0, r.1, st))
        | inr older ↦
            let near : m.less_than after b.schedule_version ≡ false =
              less_than-ltb m after b.schedule_version low r.1 ∙ older in
            rw near (
              known_successor-known_at (changed b d p) ss st
                (known_at_self after (changed b d p) (ground (arith, older))))
      ]

  ancestor-walk :
      (k : ℕ) (e : RouteEntry) (ss : List RouteEntry)
      → Rises e
      → Stacked e ss
      → get_last_known_ancestor m after (walk k e ss) ≡ known_at after (last_of e ss)
  unfolding get_last_known_ancestor last_of
  ancestor-walk zero e ss r st = ancestor_from-known_at e ss r st
  ancestor-walk (suc k) (inserted b) ss r st = ancestor_from-known_at (inserted b) ss r st
  ancestor-walk (suc k) (changed b d p) ss r st =
      ancestor-walk k p (changed b d p ∷ ss) r.2 (refl, r.0, r.1, st)

  -- From whichever of the entries of a route it begins, get_last_known_ancestor finds the newest entry
  -- that is not newer than the given version, or nothing where all of them are newer; and
  -- get_most_recent finds the newest entry. The hypotheses: the versions rise along the entries, and
  -- they and the given version lie in the lower half of the counter.
  pub get_last_known_ancestor-known_at :
      (k : ℕ) (e : RouteEntry)
      → Rises e
      → (get_last_known_ancestor m after (walk k e []) ≡ known_at after e)
        × (get_most_recent (walk k e []) ≡ e)
  unfolding last_of
  get_last_known_ancestor-known_at k e r = (ancestor-walk k e [] r tt, get_most_recent-walk k e [])
