-- ===== src/Schedule/Mirror.antt =====
-- schedule/Mirror.cpp: a copy of the schedule that is kept up to date by patches. The timeline, an
-- index of the stored routes, is left out: its insert refuses a trajectory of less than two waypoints,
-- which no database stores.
pub mod Routes
pub mod Applied
pub mod Participants
pub mod RoundTrip
pub mod FirstPatch
use rmf_traffic.Base.{
  ℕ, suc, ◌+◌, ◌-◌, ◌%◌, Bool, true, false, Option, none, some, List, [], ◌∷◌, ◌++◌, ltb, leb, ◌==◌,
  ◌&&◌, ◌||◌, if◌then◌else◌, not, map, is_empty, length, get_or,
}
use rmf_traffic.Base.Modular.{Modular, word}
use rmf_traffic.Base.Int.{ℤ}
use rmf_traffic.Base.Assoc.{Assoc, lookup, insert, erase, lookup_or, map_values, emplace}
use rmf_traffic.Route.{Route, delayed}
use rmf_traffic.Schedule.Progress.{Progress, no_progress, resize}
use rmf_traffic.Schedule.Dependencies.{
  Dependency, TrafficDependencies, Notice, reach, deprecate, add, reached,
  deprecate_dependencies_before,
}
use rmf_traffic.Schedule.Entry.{ParticipantDescription}
use rmf_traffic.Schedule.Patch.{Item, ParticipantPatch, PatchProgress, SchedulePatch, starts_by}

-- BaseRouteEntry with a route; a description may be missing.
pub record MirrorEntry : Type 0 where
  pub route : Route
  pub participant : ℕ
  pub plan_id : ℕ
  pub route_id : ℕ
  pub storage_id : ℕ
  pub description : Option ParticipantDescription

abbrev pub MirrorStorage : Type 0
MirrorStorage = Assoc MirrorEntry

-- ParticipantState; the id of the plan begins as the highest number.
pub record MirrorState : Type 0 where
  pub storage : MirrorStorage
  pub description : Option ParticipantDescription
  pub itinerary_version : ℕ
  pub current_plan_id : ℕ
  pub highest_storage : Option ℕ
  pub progress : Progress

abbrev pub blank_state : MirrorState
blank_state = record {
  storage = [];
  description = none;
  itinerary_version = 0;
  current_plan_id = word - 1;
  highest_storage = none;
  progress = no_progress;
}

-- participant_ids is a set: neither order nor repetition matters.
pub record Mirror : Type 0 where
  pub descriptions : Assoc (Option ParticipantDescription)
  pub states : Assoc MirrorState
  pub participant_ids : List ℕ
  pub latest_version : Option ℕ
  pub dependencies : TrafficDependencies
  pub told : List Notice

-- An id that is not there is reported and passed over.
unfoldable pub erase_routes : List ℕ → MirrorStorage → MirrorStorage
erase_routes [] storage = storage
erase_routes (id ∷ ids) storage = erase_routes ids (erase id storage)

-- apply_delay for one entry: `continue` leaves an empty trajectory as it is.
abbrev pub delay_mirror_entry : ℤ → ℕ → MirrorEntry → MirrorEntry
delay_mirror_entry d id e =
    if is_empty e.route.trajectory then e else record e { route = delayed d e.route }

unfoldable pub apply_delays : List ℤ → MirrorStorage → MirrorStorage
apply_delays [] storage = storage
apply_delays (d ∷ ds) storage = apply_delays ds (map_values (delay_mirror_entry d) storage)

module _ (m : Modular) where
  abbrev pub highest_of : Option ℕ → ℕ → Option ℕ
  highest_of none id = some id
  highest_of (some h) id = if m.less_than h id then some id else some h

  -- A route at a storage id that is in use overwrites the old one.
  abbrev pub add_route : ℕ → ℕ → ℕ → Route → MirrorState → MirrorState
  add_route participant route_id storage_id route state = record state {
    storage =
        insert storage_id
          (record {
            route = route;
            participant = participant;
            plan_id = state.current_plan_id;
            route_id = route_id;
            storage_id = storage_id;
            description = state.description;
          })
          state.storage;
    highest_storage = highest_of state.highest_storage storage_id;
  }

  unfoldable pub add_routes : ℕ → List Item → MirrorState → MirrorState
  add_routes participant [] state = state
  add_routes participant (i ∷ is) state =
      add_routes participant is (add_route participant i.route_id i.storage_id i.route state)

  -- The body of the loop of update, for a state that is there
  unfoldable pub update_state : ParticipantPatch → MirrorState → MirrorState
  unfolding erase_routes apply_delays add_routes resize
  update_state p s0 =
      let s1 = record s0 {
        itinerary_version = p.itinerary_version;
        storage = apply_delays p.delays (erase_routes p.erasures s0.storage);
        progress = if s0.current_plan_id == p.plan_id then s0.progress else no_progress;
        current_plan_id = p.plan_id;
      } in
      let s2 = add_routes p.participant_id p.additions s1 in
      elim p.progress [
        | none ↦ record s2 { progress = resize (length s2.storage) s2.progress }
        | some pr ↦ record s2 {
          progress = record { version = pr.version; reached_checkpoints = pr.checkpoints };
        }
      ]

  -- A participant that is not known yet gets a blank state, with the description if there is one.
  unfoldable pub update_participant : ParticipantPatch → Mirror → Mirror
  unfolding update_state
  update_participant p mirror = elim (lookup p.participant_id mirror.states) [
    | some s ↦ record mirror { states = insert p.participant_id (update_state p s) mirror.states }
    | none ↦ record mirror {
      descriptions = emplace p.participant_id none mirror.descriptions;
      participant_ids = p.participant_id ∷ mirror.participant_ids;
      states =
          insert p.participant_id
            (update_state p (record blank_state {
              description = lookup_or p.participant_id none mirror.descriptions;
            }))
            mirror.states;
    }
  ]

  unfoldable pub update_participants : List ParticipantPatch → Mirror → Mirror
  unfolding update_participant
  update_participants [] mirror = mirror
  update_participants (p ∷ ps) mirror = update_participants ps (update_participant p mirror)

  -- The cull of a patch: the routes that the time span up to the time is relevant to
  unfoldable pub cull_storage : ℤ → MirrorStorage → MirrorStorage
  unfolding starts_by
  cull_storage time [] = []
  cull_storage time ((id, e) ∷ storage) =
      let rest = cull_storage time storage in
      if starts_by time e.route.trajectory then rest else (id, e) ∷ rest

  abbrev pub culled : Option ℤ → Mirror → Mirror
  culled none mirror = mirror
  culled (some time) mirror = record mirror {
    states =
        map_values (λ (p : ℕ) (s : MirrorState). record s { storage = cull_storage time s.storage })
          mirror.states;
  }

  module _ (live : ℕ → Bool) where
    abbrev pub deprecating : ℕ → ℕ → Mirror → Mirror
    deprecating participant plan mirror =
        let (deps, told) =
          deprecate_dependencies_before live m participant plan mirror.dependencies in
        record mirror { dependencies = deps; told = mirror.told ++ told }

    abbrev pub reaching : ℕ → ℕ → Option PatchProgress → Mirror → Mirror
    reaching participant plan none mirror = mirror
    reaching participant plan (some pr) mirror =
        let (deps, told) = reached live participant plan pr.checkpoints mirror.dependencies in
        record mirror { dependencies = deps; told = mirror.told ++ told }

    -- The second loop of update: an empty storage is taken for a clear.
    unfoldable pub tell_participants : List ParticipantPatch → Mirror → Mirror
    unfolding reached deprecate_dependencies_before
    tell_participants [] mirror = mirror
    tell_participants (p ∷ ps) mirror =
        let now =
          reaching p.participant_id p.plan_id p.progress
            (deprecating p.participant_id p.plan_id mirror) in
        tell_participants ps (
          if is_empty (lookup_or p.participant_id blank_state now.states).storage
          then deprecating p.participant_id ((p.plan_id + 1) % word) now
          else now)

    -- A version is newer than none, and a patch without a base begins with a blank slate.
    abbrev pub is_known : Option ℕ → ℕ → Bool
    is_known none v = false
    is_known (some known) v = leb v known

    abbrev pub same_version : Option ℕ → ℕ → Bool
    same_version none v = false
    same_version (some known) v = known == v

    abbrev pub cleared : Mirror → Mirror
    cleared mirror = record mirror {
      states = map_values (λ (p : ℕ) (s : MirrorState). record s { storage = [] }) mirror.states;
    }

    abbrev pub updated : SchedulePatch → Mirror → Mirror
    updated patch mirror =
        tell_participants patch.participants
          (record (culled patch.cull (update_participants patch.participants mirror)) {
            latest_version = some patch.latest_version;
          })

    -- Mirror::update, and what it returns
    unfoldable pub update : SchedulePatch → Mirror → Mirror × Bool
    unfolding update_participants tell_participants cull_storage
    update patch mirror =
        if is_known mirror.latest_version patch.latest_version
        then (mirror, true)
        else elim patch.base_version [
          | none ↦ (updated patch (cleared mirror), true)
          | some base ↦
              if same_version mirror.latest_version base
              then (updated patch mirror, true)
              else (mirror, false)
        ]

    -- Mirror::watch_dependency for a subscription with a number
    unfoldable pub watch_dependency : Dependency → ℕ → Mirror → Mirror
    unfolding add
    watch_dependency dep w mirror = elim (lookup dep.on_participant mirror.states) [
      | none ↦ record mirror { told = mirror.told ++ (deprecate w ∷ []) }
      | some s ↦
          if m.less_than dep.on_plan s.current_plan_id
          then record mirror { told = mirror.told ++ (deprecate w ∷ []) }
          else if (s.current_plan_id == dep.on_plan)
              && (ltb dep.on_route (length s.progress.reached_checkpoints)
                  && leb dep.on_checkpoint (get_or s.progress.reached_checkpoints dep.on_route 0))
          then record mirror { told = mirror.told ++ (reach w ∷ []) }
          else record mirror { dependencies = add dep w mirror.dependencies }
    ]

  -- Mirror::update_participants_info
  unfoldable pub readd_routes : ℕ → MirrorStorage → MirrorState → MirrorState
  readd_routes participant [] state = state
  readd_routes participant ((id, e) ∷ storage) state =
      readd_routes participant storage (add_route participant e.route_id id e.route state)

  abbrev pub described : ℕ → ParticipantDescription → MirrorState → MirrorState
  described participant description s =
      readd_routes participant s.storage (record s { storage = []; description = some description })

  unfoldable pub add_or_update : Assoc ParticipantDescription → Mirror → Mirror
  unfolding readd_routes
  add_or_update [] mirror = mirror
  add_or_update ((id, description) ∷ rest) mirror =
      add_or_update rest (elim (lookup id mirror.states) [
        | none ↦ record mirror {
          descriptions = emplace id (some description) mirror.descriptions;
          participant_ids = id ∷ mirror.participant_ids;
        }
        | some s ↦ record mirror { states = insert id (described id description s) mirror.states }
      ])

abbrev pub without : ℕ → List ℕ → List ℕ
without id [] = []
without id (j ∷ js) = if j == id then without id js else j ∷ without id js

-- The participants of the states that the new descriptions do not have
unfoldable pub remove_absent : Assoc ParticipantDescription → Assoc MirrorState → Mirror → Mirror
remove_absent known [] mirror = mirror
remove_absent known ((id, s) ∷ states) mirror = remove_absent known states (elim (lookup id known) [
  | some d ↦ mirror
  | none ↦ record mirror {
    states = erase id mirror.states;
    descriptions = erase id mirror.descriptions;
    participant_ids = without id mirror.participant_ids;
  }
])

unfoldable pub update_participants_info : Modular → Assoc ParticipantDescription → Mirror → Mirror
unfolding remove_absent add_or_update
update_participants_info m participants mirror =
    add_or_update m participants (remove_absent participants mirror.states mirror)

-- Mirror::reset
unfoldable pub reset : Mirror → Mirror
reset mirror = record mirror {
  latest_version = none;
  states =
      map_values
        (λ (p : ℕ) (s : MirrorState). record s {
          storage = [];
          highest_storage = none;
          current_plan_id = word - 1;
          itinerary_version = 0;
        })
        mirror.states;
}

abbrev contains_id : ℕ → List ℕ → Bool
contains_id id [] = false
contains_id id (j ∷ js) = (j == id) || contains_id id js

-- Mirror::get_itinerary
unfoldable pub mirrored_itinerary : ℕ → Mirror → Option (List Route)
mirrored_itinerary participant mirror = elim (lookup participant mirror.states) [
  | none ↦ if contains_id participant mirror.participant_ids then some [] else none
  | some s ↦ some (map (λ (e : ℕ × MirrorEntry). e.1.route) s.storage)
]
