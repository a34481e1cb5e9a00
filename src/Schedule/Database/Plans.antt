-- ===== src/Schedule/Database/Plans.antt =====
-- schedule/Database.cpp: what the calls promise of a participant's itinerary, and that a change that
-- is accepted keeps the promise.
use rmf_traffic.Base.{
  ℕ, ◌+◌, ◌%◌, ◌≤◌, ◌<◌, ◌≡◌, ◌∙◌, Bool, true, Option, none, some, [], ◌++◌, All, length, map,
}
use rmf_traffic.Base.Modular.{Modular, word}
use rmf_traffic.Base.Int.{ℤ}
use rmf_traffic.Route.{Route, delayed}
use rmf_traffic.Schedule.Progress.{pull}
use rmf_traffic.Schedule.Delivery.{Change}
use rmf_traffic.Schedule.Database.{Itinerary, insert_items, apply_delay, ◌>>=◌, get_itinerary}
use rmf_traffic.Schedule.Database.Stored.{IsLong, routes_at-Holds}
use rmf_traffic.Schedule.Database.Calls.{
  ItineraryChange, set, extend, delay, clear, Workspace, apply_set, apply_extend, apply_delay_call,
  apply_clear, apply_change, apply,
}
use rmf_traffic.Schedule.Database.Serves.{
  Serves, ServesPlan-some, Serves-nil, insert_items-Serves, clear-some, apply_delay-Serves,
}

-- The abstract view of a participant in the schedule
pub record Planned : Type 0 where
  pub itinerary : Itinerary
  pub plan_id : ℕ

unfoldable pub plan_change : ItineraryChange → Planned → Planned
plan_change (set plan itinerary base) p = record { itinerary = itinerary; plan_id = plan }
plan_change (extend itinerary) p = record p { itinerary = p.itinerary ++ itinerary }
plan_change (delay d) p = record p { itinerary = map (delayed d) p.itinerary }
plan_change clear p = record p { itinerary = [] }

-- What Participant::set sees to: routes of two waypoints at least
abbrev pub IsSendable : ItineraryChange → Type 0
IsSendable (set plan itinerary base) = All IsLong itinerary × (base < word)
IsSendable (extend itinerary) = All IsLong itinerary
IsSendable (delay d) = Unit
IsSendable clear = Unit

abbrev pub Follows : Planned → Option Workspace → Type 0
Follows p none = ⊥
Follows p (some w) = Serves p.itinerary w.state × (w.state.latest_plan_id ≡ p.plan_id)

module _ (m : Modular) (live : ℕ → Bool) (maximum : ℤ) (participant : ℕ) where
  set-Follows :
      (plan base : ℕ) (its : Itinerary) (p : Planned) (w : Workspace)
      → IsSendable (set plan its base)
      → Follows p (some w)
      → Follows
          (record { itinerary = its; plan_id = plan })
          (apply_set m live maximum participant plan its base w)
  unfolding apply_set
  set-Follows plan base its p w (long, below) (h, e) =
      let version = (w.schedule_version + 1) % word in
      let (s, cleared, empty, next_id, same) =
        clear-some version participant true w.state h.found in
      let pulled = pull m plan (length its) s.buffered_progress in
      let reset = record s {
        progress = pulled.0;
        buffered_progress = pulled.1;
        schedule_version_of_progress = some version;
        latest_plan_id = plan;
        next_storage_id = base;
      } in
      let inserted =
        insert_items-Serves version participant [] its reset long (Serves-nil reset empty below) in
      let (s', added, serves, kept) =
        ServesPlan-some its plan (insert_items version participant its reset) inserted in
      rw (cleared, ◌>>=◌) (rw (added, ◌>>=◌) (serves, kept))

  extend-Follows :
      (its : Itinerary) (p : Planned) (w : Workspace)
      → All IsLong its
      → Follows p (some w)
      → Follows
          (record p { itinerary = p.itinerary ++ its })
          (apply_extend m live maximum participant its w)
  unfolding apply_extend
  extend-Follows its p w long (h, e) =
      let version = (w.schedule_version + 1) % word in
      let (s', added, serves, kept) =
        ServesPlan-some (p.itinerary ++ its) w.state.latest_plan_id
          (insert_items version participant its w.state)
          (insert_items-Serves version participant p.itinerary its w.state long h) in
      rw (added, ◌>>=◌)
        (
          record {
            found = serves.found;
            stores = λ b.
                let old = serves.stores b in
                record {
                  first = old.first;
                  below = old.below;
                  ids = old.ids;
                  next_id = old.next_id;
                  holds = old.holds;
                };
            next_below = serves.next_below;
          },
          kept ∙ e,
        )

  delay-Follows :
      (d : ℤ) (p : Planned) (w : Workspace)
      → Follows p (some w)
      → Follows
          (record p { itinerary = map (delayed d) p.itinerary })
          (apply_delay_call m live maximum participant d w)
  unfolding apply_delay_call
  delay-Follows d p w (h, e) =
      let version = (w.schedule_version + 1) % word in
      let (s', added, serves, kept) =
        ServesPlan-some (map (delayed d) p.itinerary) w.state.latest_plan_id
          (apply_delay version participant maximum d w.state)
          (apply_delay-Serves version participant maximum d p.itinerary w.state h) in
      rw (added, ◌>>=◌) (serves, kept ∙ e)

  clear-Follows :
      (p : Planned) (w : Workspace)
      → Follows p (some w)
      → Follows (record p { itinerary = [] }) (apply_clear m live maximum participant w)
  unfolding apply_clear
  clear-Follows p w (h, e) =
      let version = (w.schedule_version + 1) % word in
      let (s, cleared, empty, next_id, same) =
        clear-some version participant true w.state h.found in
      rw (cleared, ◌>>=◌) (Serves-nil s empty (rw next_id (h.next_below)), same ∙ e)

  -- Where the state of a participant is that of an itinerary and a plan, no sendable change throws, and
  -- the state that it leaves is that of the changed itinerary and plan.
  pub apply_change-Follows :
      (c : ItineraryChange) (p : Planned) (w : Workspace)
      → IsSendable c
      → Follows p (some w)
      → Follows (plan_change c p) (apply_change m live maximum participant c w)
  unfolding plan_change apply_change
  apply_change-Follows (set plan its base) p w ok h = set-Follows plan base its p w ok h
  apply_change-Follows (extend its) p w ok h = extend-Follows its p w ok h
  apply_change-Follows (delay d) p w ok h = delay-Follows d p w h
  apply_change-Follows clear p w ok h = clear-Follows p w h

  pub apply-Follows :
      (c : Change ItineraryChange) (p : Planned) (o : Option Workspace)
      → IsSendable c.payload
      → Follows p o
      → Follows (plan_change c.payload p) (apply m live maximum participant c o)
  unfolding apply
  apply-Follows c p none ok h = absurd h
  apply-Follows c p (some w) ok h = apply_change-Follows c.payload p w ok h

-- What the database gives as the itinerary
pub get_itinerary-Follows :
    (p : Planned) (w : Workspace)
    → length p.itinerary ≤ word
    → Follows p (some w)
    → get_itinerary w.state ≡ some (map (λ (r : Route). some r) p.itinerary)
unfolding get_itinerary
get_itinerary-Follows p w b (h, e) =
    routes_at-Holds w.state.storage w.state.active_routes p.itinerary (h.stores b).holds
