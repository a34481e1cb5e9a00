-- ===== src/Schedule/Database/Serves.antt =====
-- schedule/Database.cpp: the state of a participant and the itinerary that it stands for.
use rmf_traffic.Base.{
  ℕ, suc, ◌+◌, ◌%◌, ◌≤◌, ◌<◌, ◌≡◌, refl, sym, ap, ◌∙◌, subst, Bool, true, false, Option, inl, inr,
  none, some, List, [], ◌∷◌, ◌++◌, arith, All, length, map, if◌then◌else◌, Bool-cases,
  length-append,
}
use mathlib.Core.Option.{some-injective}
use rmf_traffic.Base.Modular.{word}
use rmf_traffic.Base.Int.{ℤ, pos, ◌+ℤ◌, ltb_ℤ}
use rmf_traffic.Route.{delayed}
use rmf_traffic.Schedule.Database.{
  ParticipantState, Itinerary, ◌>>=◌, with_route, insert_items, clear, apply_delay, cleared_entry,
}
use rmf_traffic.Schedule.Database.Stored.{window, window-Distinct, Distinct, Holds, Found, IsLong}
use rmf_traffic.Schedule.Database.Kept.{
  Stores, with_routes, insert_from-with_routes, with_routes-Stores, with_routes-Found,
  Found-Present, replace_entries-some, replaced-Found, replaced-Holds,
}
use rmf_traffic.Schedule.Database.Delays.{
  length-map, delayed-IsLong, delay_one, delay_one-route, delay_entries-replace,
  refresh_itinerary-Holds, refresh_itinerary-Found,
}

-- The active routes are found, and they are the itinerary unless that has more routes than there
-- are storage ids.
pub record Serves (its : Itinerary) (s : ParticipantState) : Type 0 where
  pub found : Found s.storage s.active_routes
  pub stores : length its ≤ word → Stores its s
  pub next_below : s.next_storage_id < word

abbrev pub ServesPlan : Itinerary → ℕ → Option ParticipantState → Type 0
ServesPlan its plan none = ⊥
ServesPlan its plan (some s) = Serves its s × (s.latest_plan_id ≡ plan)

pub ServesPlan-some :
    (its : Itinerary) (plan : ℕ) (o : Option ParticipantState)
    → ServesPlan its plan o
    → (s : ParticipantState) × (o ≡ some s) × Serves its s × (s.latest_plan_id ≡ plan)
ServesPlan-some its plan none h = absurd h
ServesPlan-some its plan (some s) (h, e) = (s, refl, h, e)

pub Serves-nil :
    (s : ParticipantState) → s.active_routes ≡ [] → s.next_storage_id < word → Serves [] s
Serves-nil s e b = record {
  found = subst (λ (x : List ℕ). Found s.storage x) (sym e) tt;
  stores = λ _. record {
    first = s.next_storage_id;
    below = b;
    ids = e;
    next_id = omega arith;
    holds = subst (λ (x : List ℕ). Holds s.storage x []) (sym e) tt;
  };
  next_below = b;
}

replan :
    (a b : Itinerary) (p q : ℕ) (o : Option ParticipantState)
    → (length b ≤ word → a ≡ b)
    → p ≡ q
    → ServesPlan a p o
    → ServesPlan b q o
replan a b p q none same plan h = absurd h
replan a b p q (some s) same plan (h, e) = (
  record {
    found = h.found;
    stores = λ n.
        subst (λ (x : Itinerary). Stores x s) (same n)
          (h.stores (subst (λ (x : Itinerary). length x ≤ word) (sym (same n)) n));
    next_below = h.next_below;
  },
  e ∙ plan,
)

module _ (version participant : ℕ) where
  with_routes-plan :
      (id : ℕ) (rs : Itinerary) (s : ParticipantState)
      → (with_routes version participant id rs s).latest_plan_id ≡ s.latest_plan_id
  with_routes-plan id [] s = refl
  with_routes-plan id (r ∷ rs) s = with_routes-plan (suc id) rs _

  with_routes_below :
      (id : ℕ) (rs : Itinerary) (s : ParticipantState)
      → s.next_storage_id < word
      → (with_routes version participant id rs s).next_storage_id < word
  with_routes_below id [] s b = b
  with_routes_below id (r ∷ rs) s b =
      with_routes_below (suc id) rs (with_route version participant s id r) (omega arith)

  pub insert_items-Serves :
      (its new : Itinerary) (s : ParticipantState)
      → All IsLong new
      → Serves its s
      → ServesPlan (its ++ new) s.latest_plan_id (insert_items version participant new s)
  unfolding insert_items
  insert_items-Serves its new s l h =
      let id = length s.active_routes in
      rw (insert_from-with_routes version participant id new s l) (
        record {
          found = with_routes-Found version participant id new s l h.found;
          stores = λ b.
              let total : length its + length new ≤ word = omega (arith, length-append its new) in
              with_routes-Stores version participant id new its s total
                (h.stores (omega (arith, total)));
          next_below = with_routes_below id new s h.next_below;
        },
        with_routes-plan id new s,
      )

  pub clear-some :
      (reset : Bool) (s : ParticipantState)
      → Found s.storage s.active_routes
      → (s' : ParticipantState) × (clear version participant reset s ≡ some s')
        × (s'.active_routes ≡ [])
        × (s'.next_storage_id ≡ s.next_storage_id)
        × (s'.latest_plan_id ≡ s.latest_plan_id)
  unfolding clear
  clear-some reset s f =
      let (st, e) =
        replace_entries-some (cleared_entry version participant s) s.active_routes s.storage
          (Found-Present s.storage s.active_routes f) in
      (
        record s {
          storage = st;
          cumulative_delay = pos 0;
          active_routes = [];
          progress = if reset then record (s.progress) { reached_checkpoints = [] } else s.progress;
        },
        rw e refl,
        refl,
        refl,
        refl,
      )

  -- The refresh of the whole itinerary
  apply_delay_over :
      (maximum d : ℤ) (its : Itinerary) (s : ParticipantState)
      → ltb_ℤ maximum (s.cumulative_delay +ℤ d) ≡ true
      → Serves its s
      → ServesPlan
          (map (delayed d) its)
          s.latest_plan_id
          (apply_delay version participant maximum d s)
  unfolding apply_delay
  apply_delay_over maximum d its s over h =
      let (rs, refreshed, long) = refresh_itinerary-Found d s.active_routes s.storage h.found in
      let (s', cleared, empty, next_id, plan) = clear-some false s h.found in
      let step : apply_delay version participant maximum d s
          ≡ insert_items version participant rs s' =
        rw (over, apply_delay) (rw (refreshed, ◌>>=◌) (rw (cleared, ◌>>=◌) refl)) in
      let blank = Serves-nil s' empty (rw next_id (h.next_below)) in
      let inserted = insert_items-Serves [] rs s' long blank in
      let same : length (map (delayed d) its) ≤ word → rs ≡ map (delayed d) its = λ n.
        let old = h.stores (omega (arith, n, length-map (delayed d) its)) in
        some-injective rs (map (delayed d) its)
          (sym refreshed ∙ refresh_itinerary-Holds d s.active_routes s.storage its old.holds) in
      subst (λ (x : Option ParticipantState). ServesPlan (map (delayed d) its) s.latest_plan_id x)
        (sym step)
        (replan rs (map (delayed d) its) s'.latest_plan_id s.latest_plan_id
          (insert_items version participant rs s') same plan inserted)

  apply_delay_within :
      (maximum d : ℤ) (its : Itinerary) (s : ParticipantState)
      → ltb_ℤ maximum (s.cumulative_delay +ℤ d) ≡ false
      → Serves its s
      → ServesPlan
          (map (delayed d) its)
          s.latest_plan_id
          (apply_delay version participant maximum d s)
  unfolding apply_delay ◌+ℤ◌
  apply_delay_within maximum d its s within h =
      let f = delay_one version participant s d in
      let (st, e) =
        replace_entries-some f s.active_routes s.storage
          (Found-Present s.storage s.active_routes h.found) in
      let delays =
        delay_entries-replace version participant s d s.active_routes s.storage h.found ∙ e in
      let s' : ParticipantState = record s {
        cumulative_delay = s.cumulative_delay +ℤ d;
        storage = st;
      } in
      let step : apply_delay version participant maximum d s ≡ some s' =
        rw (within, apply_delay) (rw (delays, ◌>>=◌) refl) in
      let n = length-map (delayed d) its in
      let serves : Serves (map (delayed d) its) s' = record {
        found =
            replaced-Found f (delayed d) (delay_one-route version participant s d)
              (delayed-IsLong d) s.active_routes s.active_routes s.storage st e h.found h.found;
        stores = λ b.
            let old = h.stores (omega (arith, n)) in
            let distinct =
              subst Distinct (sym old.ids)
                (window-Distinct old.first (length its) old.below (omega (arith, n))) in
            record {
              first = old.first;
              below = old.below;
              ids = old.ids ∙ ap (window old.first) (sym n);
              next_id = old.next_id ∙ ap (λ (x : ℕ). (old.first + x) % word) (sym n);
              holds =
                  replaced-Holds f (delayed d) (delay_one-route version participant s d)
                    (delayed-IsLong d) s.active_routes its s.storage st e distinct old.holds;
            };
        next_below = h.next_below;
      } in
      subst (λ (x : Option ParticipantState). ServesPlan (map (delayed d) its) s.latest_plan_id x)
        (sym step) (serves, refl)

  -- A delay moves the itinerary, within the limit of delays and beyond it.
  pub apply_delay-Serves :
      (maximum d : ℤ) (its : Itinerary) (s : ParticipantState)
      → Serves its s
      → ServesPlan
          (map (delayed d) its)
          s.latest_plan_id
          (apply_delay version participant maximum d s)
  apply_delay-Serves maximum d its s h =
      elim (Bool-cases (ltb_ℤ maximum (s.cumulative_delay +ℤ d))) [
        | inl over ↦ apply_delay_over maximum d its s over h
        | inr within ↦ apply_delay_within maximum d its s within h
      ]
