-- ===== src/Schedule/Patch/Upheld/Calls.antt =====
-- schedule/Database.cpp: set, extend, delay and clear, by the entries that they leave.
use rmf_traffic.Base.{
  ℕ, suc, ◌≤◌, ◌<◌, ◌≡◌, refl, sym, ◌∙◌, subst, Bool, false, inl, inr, some, List, [], ◌∷◌, ◌++◌,
  arith, All, Contains, length, ◌==◌, if◌then◌else◌, Bool-cases, is_empty,
}
use mathlib.Core.Option.{some-injective}
use rmf_traffic.Base.Modular.{word, half}
use rmf_traffic.Base.Int.{ℤ, pos, ◌+ℤ◌, ltb_ℤ}
use rmf_traffic.Base.Assoc.{lookup, insert}
use rmf_traffic.Route.{Route, Trajectory}
use rmf_traffic.Schedule.Entry.{RouteEntry, route_of}
use rmf_traffic.Schedule.Database.{
  ParticipantState, ParticipantStorage, Itinerary, with_route, new_entry, cleared_entry, ◌>>=◌,
  clear as clear_state, insert_items, apply_delay,
}
use rmf_traffic.Schedule.Database.Stored.{
  Distinct, window-Distinct, Has, IsLong, Found, lookup-insert_same, lookup-insert_other,
}
use rmf_traffic.Schedule.Database.Kept.{
  with_routes, insert_from-with_routes, Found-Present, replace_entries-some,
}
use rmf_traffic.Schedule.Database.Delays.{
  delay_one, delay_one-entry, delay_entries-replace, refresh_itinerary-Found,
}
use rmf_traffic.Schedule.Database.Serves.{Serves}
use rmf_traffic.Schedule.Patch.Log.{DelayLog, UpTo, UpTo-le, Descends}
use rmf_traffic.Schedule.Patch.Upheld.{
  IsKept, IsUpheld, replaced-IsKept, cleared_entry-IsKept, delayed_entry-IsKept,
}

Contains-append_left : {A : Type 0} (a : A) (xs ys : List A) → Contains a xs → Contains a (xs ++ ys)
Contains-append_left a [] ys c = absurd c
Contains-append_left a (x ∷ xs) ys (inl e) = inl e
Contains-append_left a (x ∷ xs) ys (inr c) = inr (Contains-append_left a xs ys c)

Contains-append_last : {A : Type 0} (a : A) (xs : List A) → Contains a (xs ++ (a ∷ []))
Contains-append_last a [] = inl refl
Contains-append_last a (x ∷ xs) = inr (Contains-append_last a xs)

Found-Contains :
    (st : ParticipantStorage) (ids : List ℕ) (id : ℕ)
    → Found st ids
    → Contains id ids
    → (r : Route) × IsLong r × Has st id r
Found-Contains st [] id f c = absurd c
Found-Contains st (i ∷ is) id f (inl e) =
    subst (λ (x : ℕ). (r : Route) × IsLong r × Has st x r) (sym e) f.0
Found-Contains st (i ∷ is) id f (inr c) = Found-Contains st is id f.1 c

pub Serves-Distinct :
    (its : Itinerary) (s : ParticipantState)
    → length its ≤ word
    → Serves its s
    → Distinct s.active_routes
Serves-Distinct its s b h =
    let old = h.stores b in
    subst Distinct (sym old.ids) (window-Distinct old.first (length its) old.below b)

module _ (p w : ℕ) (low : w < half) where
  with_route-IsUpheld :
      (id : ℕ) (r : Route) (log : DelayLog) (s : ParticipantState)
      → IsUpheld p w log s
      → IsUpheld p w log (with_route w p s id r)
  with_route-IsUpheld id r log s u = record {
    descends = u.descends;
    past = u.past;
    kept = λ j e at. elim (Bool-cases (n == j)) [
      | inl own ↦
          let same : n ≡ j = ground (arith, own) in
          let now : new ≡ e = some-injective new e (
            sym (lookup-insert_same n new s.storage)
            ∙ subst (λ (x : ℕ). lookup x (insert n new s.storage) ≡ some e) (sym same) at) in
          subst (IsKept p w log (s.active_routes ++ (n ∷ [])) j) now
            (subst (λ (x : ℕ). IsKept p w log (s.active_routes ++ (n ∷ [])) x new) same fresh)
      | inr other ↦
          let k = u.kept j e (sym (lookup-insert_other n j new s.storage other) ∙ at) in
          record {
            logged = k.logged;
            old = k.old;
            cleared = elim (k.cleared) [
              | inl x ↦ inl x
              | inr x ↦ inr (Contains-append_left j s.active_routes (n ∷ []) x)
            ];
          }
    ];
  }
    where
      n : ℕ
      n = s.next_storage_id

      new : RouteEntry
      new = new_entry w p s id r

      fresh : IsKept p w log (s.active_routes ++ (n ∷ [])) n new
      fresh = record {
        logged = record { rises = low; owned = (refl, refl); logged = inr (u.past, (r, refl)) };
        old = omega arith;
        cleared = inr (Contains-append_last n s.active_routes);
      }

  with_routes-IsUpheld :
      (id : ℕ) (rs : Itinerary) (log : DelayLog) (s : ParticipantState)
      → IsUpheld p w log s
      → IsUpheld p w log (with_routes w p id rs s)
  with_routes-IsUpheld id [] log s u = u
  with_routes-IsUpheld id (r ∷ rs) log s u =
      with_routes-IsUpheld (suc id) rs log (with_route w p s id r)
        (with_route-IsUpheld id r log s u)

  pub insert_items-IsUpheld :
      (rs : Itinerary) (log : DelayLog) (s : ParticipantState)
      → All IsLong rs
      → IsUpheld p w log s
      → (s' : ParticipantState) × (insert_items w p rs s ≡ some s') × IsUpheld p w log s'
  unfolding insert_items
  insert_items-IsUpheld rs log s long u =
      let id = length s.active_routes in
      (
        with_routes w p id rs s,
        insert_from-with_routes w p id rs s long,
        with_routes-IsUpheld id rs log s u,
      )

  module _ (v : ℕ) (later : v < w) (log : DelayLog) (s : ParticipantState) (u : IsUpheld p v log s)
      (found : Found s.storage s.active_routes) (distinct : Distinct s.active_routes) where
    pub clear-IsUpheld :
        (reset : Bool)
        → (s' : ParticipantState) × (clear_state w p reset s ≡ some s') × IsUpheld p w log s'
    unfolding clear_state
    clear-IsUpheld reset =
        let (st, e) =
          replace_entries-some (cleared_entry w p s) s.active_routes s.storage
            (Found-Present s.storage s.active_routes found) in
        (
          record s {
            storage = st;
            cumulative_delay = pos 0;
            active_routes = [];
            progress =
                if reset then record (s.progress) { reached_checkpoints = [] } else s.progress;
          },
          rw e refl,
          record {
            descends = u.descends;
            past = UpTo-le v w log (omega (arith, later)) u.past;
            kept =
                replaced-IsKept p v w later log log s u distinct [] (cleared_entry w p s)
                  (λ id x at c k.
                    cleared_entry-IsKept p v w later low log s u.past s.active_routes id x k [])
                  st e;
          },
        )

    newest-log : (d : ℤ) (l : DelayLog) → UpTo v l → Descends l → Descends ((w, d) ∷ l)
    newest-log d [] up h = (tt, h)
    newest-log d ((x, y) ∷ l) up h =
        let first : x < w = omega (arith, up.0, later) in ((first, (newest-log d l up.1 h.1).0), h)

    delay_one-IsKept :
        (d : ℤ) (id : ℕ) (e : RouteEntry)
        → lookup id s.storage ≡ some e
        → Contains id s.active_routes
        → IsKept p v log s.active_routes id e
        → IsKept p w ((w, d) ∷ log) s.active_routes id (delay_one w p s d id e)
    delay_one-IsKept d id e at c k =
        let (r, long, (e', at', has')) = Found-Contains s.storage s.active_routes id found c in
        let same : e' ≡ e = some-injective e' e (sym at' ∙ at) in
        let has = subst (λ (x : RouteEntry). route_of x ≡ some r) same has' in
        subst (IsKept p w ((w, d) ∷ log) s.active_routes id)
          (sym (delay_one-entry w p s d id e r has))
          (delayed_entry-IsKept p v w later low log s u.past s.active_routes id e k d r has
            (not_empty r.trajectory long) c)
      where
        not_empty : (t : Trajectory) → 2 ≤ length t → is_empty t ≡ false
        not_empty [] l = absurd (omega (arith, l))
        not_empty (x ∷ t) l = refl

    abbrev pub log_after : ℤ → ℤ → DelayLog
    log_after maximum d = if ltb_ℤ maximum (s.cumulative_delay +ℤ d) then log else (w, d) ∷ log

    pub apply_delay-IsUpheld :
        (maximum d : ℤ)
        → (s' : ParticipantState) × (apply_delay w p maximum d s ≡ some s')
          × IsUpheld p w (log_after maximum d) s'
    unfolding apply_delay
    apply_delay-IsUpheld maximum d = elim (Bool-cases (ltb_ℤ maximum (s.cumulative_delay +ℤ d))) [
      | inl over ↦
          let (rs, refreshed, long) = refresh_itinerary-Found d s.active_routes s.storage found in
          let (s₁, cleared, u₁) = clear-IsUpheld false in
          let (s₂, added, u₂) = insert_items-IsUpheld rs log s₁ long u₁ in
          let step : apply_delay w p maximum d s ≡ some s₂ =
            rw (over, apply_delay) (rw (refreshed, ◌>>=◌) (rw (cleared, ◌>>=◌) added)) in
          (s₂, step, rw over u₂)
      | inr within ↦
          let f = delay_one w p s d in
          let (st, e) =
            replace_entries-some f s.active_routes s.storage
              (Found-Present s.storage s.active_routes found) in
          let delays = delay_entries-replace w p s d s.active_routes s.storage found ∙ e in
          let s' : ParticipantState = record s {
            cumulative_delay = s.cumulative_delay +ℤ d;
            storage = st;
          } in
          let step : apply_delay w p maximum d s ≡ some s' =
            rw (within, apply_delay) (rw (delays, ◌>>=◌) refl) in
          (
            s',
            step,
            rw within (record {
              descends = newest-log d log u.past u.descends;
              past = (omega arith, UpTo-le v w log (omega (arith, later)) u.past);
              kept =
                  replaced-IsKept p v w later log ((w, d) ∷ log) s u distinct s.active_routes f
                    (delay_one-IsKept d) st e;
            }),
          )
    ]
