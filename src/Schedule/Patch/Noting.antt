-- ===== src/Schedule/Patch/Noting.antt =====
-- schedule/Database.cpp: what the visits of a patch inspector note of a participant.
use rmf_traffic.Base.{
  ℕ, ◌≡◌, refl, ◌∙◌, ◌⊎◌, Bool, true, Option, none, some, List, [], ◌∷◌, if◌then◌else◌, All,
  Contains,
}
use rmf_traffic.Base.Int.{ℤ}
use rmf_traffic.Base.Assoc.{lookup}
use rmf_traffic.Route.{Route}
use rmf_traffic.Schedule.Entry.{BaseRouteEntry, RouteEntry, inserted, changed, route_of}
use rmf_traffic.Schedule.Database.{ParticipantStorage}
use rmf_traffic.Schedule.Patch.{
  Item, ParticipantChanges, note_change, same_entry, adding, erasing, delaying, relevant_route,
}
use rmf_traffic.Schedule.Patch.Ancestor.{Rises, known_at}
use rmf_traffic.Schedule.Patch.Log.{DelayLog, Logged, recent}
use rmf_traffic.Schedule.Patch.Filled.{onto}

-- All entries of a route have its participant and its storage id.
abbrev pub Owned : ℕ → ℕ → RouteEntry → Type 0
Owned p id (inserted b) = (b.participant ≡ p) × (b.storage_id ≡ id)
Owned p id (changed b d e) = (b.participant ≡ p) × (b.storage_id ≡ id) × Owned p id e

-- What holds of the entries of a stored route: those of a route that is there follow the log.
pub record IsLogged (log : DelayLog) (p id : ℕ) (e : RouteEntry) : Type 0 where
  pub rises : Rises e
  pub owned : Owned p id e
  pub logged : (route_of e ≡ none) ⊎ Logged e log

-- The route that was there at a version
abbrev pub known_route : ℕ → RouteEntry → Option Route
known_route after e = elim (known_at after e) [ none ↦ none | some last ↦ route_of last ]

module _ (after : ℕ) (log : DelayLog) (chains : ParticipantStorage) where
  abbrev pub Dropped : ℕ → Type 0
  Dropped id =
      (e : RouteEntry) × (lookup id chains ≡ some e)
      × (route_of e ≡ none)
      × ((r : Route) × (known_route after e ≡ some r))

  abbrev pub Added : Item → Type 0
  Added i =
      (e : RouteEntry) × (lookup i.storage_id chains ≡ some e)
      × (route_of e ≡ some i.route)
      × (known_route after e ≡ none)

  abbrev pub delays_since : List (ℕ × ℤ)
  delays_since = onto (recent after log) []

  -- Nothing is noted that is not so.
  pub record IsSound (c : ParticipantChanges) : Type 0 where
    pub dropped : All Dropped c.erasures
    pub added : All Added c.additions
    pub delayed : (c.delays ≡ []) ⊎ (c.delays ≡ delays_since)

  abbrev pub AddedAt : ℕ → List Item → Type 0
  AddedAt id [] = ⊥
  AddedAt id (i ∷ is) = (i.storage_id ≡ id) ⊎ AddedAt id is

  -- All is noted of a route.
  pub record IsNoted (id : ℕ) (e : RouteEntry) (c : ParticipantChanges) : Type 0 where
    pub drops :
        (r : Route) → known_route after e ≡ some r → route_of e ≡ none → Contains id c.erasures
    pub adds :
        (r : Route) → known_route after e ≡ none → route_of e ≡ some r → AddedAt id c.additions
    pub delays :
        (r s : Route)
        → known_route after e ≡ some r
        → route_of e ≡ some s
        → (recent after log ≡ []) ⊎ (c.delays ≡ delays_since)

abbrev pub all_relevant : BaseRouteEntry → Bool
all_relevant e = true

relevant_route-all : (e : RouteEntry) → relevant_route all_relevant e ≡ route_of e
relevant_route-all e = go (route_of e)
  where
    go :
        (o : Option Route)
        → (let x : Option Route = elim o [ none ↦ none | some r ↦ if true then some r else none ] in
            x)
          ≡ o
    go none = refl
    go (some r) = refl

abbrev pub applied :
    Option (ParticipantChanges → ParticipantChanges) → ParticipantChanges → ParticipantChanges
applied none c = c
applied (some f) c = f c

-- What the visit of a route notes
abbrev pub noting : ℕ → RouteEntry → ParticipantChanges → ParticipantChanges
noting after e c =
    if same_entry (known_at after e) e
    then c
    else applied (note_change all_relevant (known_at after e) e) c

module _ (e : RouteEntry) where
  pub note_change-new :
      (r : Route) → route_of e ≡ some r → note_change all_relevant none e ≡ some (adding e r)
  unfolding note_change
  note_change-new r h = rw (relevant_route-all e ∙ h, note_change) refl

  pub note_change-never : route_of e ≡ none → note_change all_relevant none e ≡ none
  unfolding note_change
  note_change-never h = rw (relevant_route-all e ∙ h, note_change) refl

  module _ (last : RouteEntry) where
    pub note_change-again :
        (r : Route)
        → route_of last ≡ none
        → route_of e ≡ some r
        → note_change all_relevant (some last) e ≡ some (adding e r)
    unfolding note_change
    note_change-again r k h =
        rw (relevant_route-all last ∙ k, note_change)
          (rw (relevant_route-all e ∙ h, note_change) refl)

    pub note_change-gone :
        route_of last ≡ none → route_of e ≡ none → note_change all_relevant (some last) e ≡ none
    unfolding note_change
    note_change-gone k h =
        rw (relevant_route-all last ∙ k, note_change)
          (rw (relevant_route-all e ∙ h, note_change) refl)

    pub note_change-dropped :
        (r : Route)
        → route_of last ≡ some r
        → route_of e ≡ none
        → note_change all_relevant (some last) e ≡ some (erasing e)
    unfolding note_change
    note_change-dropped r k h =
        rw (relevant_route-all last ∙ k, note_change)
          (rw (relevant_route-all e ∙ h, note_change) refl)

    pub note_change-delayed :
        (r s : Route)
        → route_of last ≡ some r
        → route_of e ≡ some s
        → note_change all_relevant (some last) e ≡ some (delaying last e)
    unfolding note_change
    note_change-delayed r s k h =
        rw (relevant_route-all last ∙ k, note_change)
          (rw (relevant_route-all e ∙ h, note_change) refl)
