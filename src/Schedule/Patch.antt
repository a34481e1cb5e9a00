-- ===== src/Schedule/Patch.antt =====
-- schedule/Database.cpp, Change.cpp and Patch.cpp: what has changed since a version, as the database
-- tells it to a mirror.
pub mod Ancestor
pub mod Log
pub mod Collected
pub mod Filled
pub mod Noting
pub mod Steps
pub mod Visits
pub mod Inspected
pub mod Whole
pub mod Keys
pub mod Upheld
use rmf_traffic.Base.{
  ℕ, suc, ◌+◌, Bool, true, false, Option, none, some, List, [], ◌∷◌, ◌++◌, ltb, leb, ◌==◌, ◌&&◌,
  ◌||◌, if◌then◌else◌, not, map, is_empty,
}
use rmf_traffic.Base.Modular.{Modular}
use rmf_traffic.Base.Int.{ℤ, leb_ℤ, ltb_ℤ}
use rmf_traffic.Base.Assoc.{Assoc, lookup, insert, lookup_or}
use rmf_traffic.Route.{Route, Trajectory, start_time, finish_time}
use rmf_traffic.Schedule.Progress.{Progress}
use rmf_traffic.Schedule.Entry.{
  BaseRouteEntry, RouteEntry, inserted, changed, base, route_of, version_of, depth, Position,
  get_most_recent, get_last_known_ancestor,
}
use rmf_traffic.Schedule.Database.{ParticipantState, ◌>>=◌}

-- Change::Add::Item
pub record Item : Type 0 where
  pub route_id : ℕ
  pub storage_id : ℕ
  pub route : Route

-- ParticipantChanges; the delays are a std::map, in the order of the versions.
pub record ParticipantChanges : Type 0 where
  pub additions : List Item
  pub delays : List (ℕ × ℤ)
  pub erasures : List ℕ

abbrev pub no_changes : ParticipantChanges
no_changes = record { additions = []; delays = []; erasures = [] }

-- delays.insert: a delay that is there stays.
unfoldable pub insert_delay : ℕ → ℤ → List (ℕ × ℤ) → List (ℕ × ℤ)
insert_delay v d [] = (v, d) ∷ []
insert_delay v d ((w, e) ∷ ds) =
    if ltb w v
    then (w, e) ∷ insert_delay v d ds
    else if w == v
    then (w, e) ∷ ds
    else (v, d) ∷ (w, e) ∷ ds

-- `while (traverse != last)` from the newest entry back to the one with the given depth. The code
-- asserts that there is a transition.
unfoldable pub collect_delays : ℕ → RouteEntry → List (ℕ × ℤ) → List (ℕ × ℤ)
unfolding insert_delay depth
collect_delays stop (inserted b) ds = ds
collect_delays stop (changed b none predecessor) ds =
    if depth predecessor + 1 == stop then ds else collect_delays stop predecessor ds
collect_delays stop (changed b (some d) predecessor) ds =
    if depth predecessor + 1 == stop
    then ds
    else collect_delays stop predecessor (insert_delay b.schedule_version d ds)

-- An entry with a route that is relevant
abbrev pub relevant_route : (BaseRouteEntry → Bool) → RouteEntry → Option Route
relevant_route relevant e = elim (route_of e) [
  | none ↦ none
  | some r ↦ if relevant (base e) then some r else none
]

abbrev pub item_of : RouteEntry → Route → Item
item_of e r = record { route_id = (base e).route_id; storage_id = (base e).storage_id; route = r }

abbrev pub same_entry : Option RouteEntry → RouteEntry → Bool
same_entry none newest = false
same_entry (some e) newest = depth e == depth newest

abbrev pub adding : RouteEntry → Route → ParticipantChanges → ParticipantChanges
adding e r c = record c { additions = c.additions ++ (item_of e r ∷ []) }

abbrev pub erasing : RouteEntry → ParticipantChanges → ParticipantChanges
erasing e c = record c { erasures = c.erasures ++ ((base e).storage_id ∷ []) }

abbrev pub delaying : RouteEntry → RouteEntry → ParticipantChanges → ParticipantChanges
delaying last newest c = record c { delays = collect_delays (depth last) newest c.delays }

-- What one route adds to the changes of its participant; `none` where they are not referred to
unfoldable pub note_change :
    (BaseRouteEntry → Bool)
    → Option RouteEntry
    → RouteEntry
    → Option (ParticipantChanges → ParticipantChanges)
unfolding collect_delays
note_change relevant none newest = elim (relevant_route relevant newest) [
  | none ↦ none
  | some r ↦ some (adding newest r)
]
note_change relevant (some last) newest = elim (relevant_route relevant last) [
  | none ↦ elim (relevant_route relevant newest) [ none ↦ none | some r ↦ some (adding newest r) ]
  | some r ↦ elim (relevant_route relevant newest) [
    | none ↦ some (erasing newest)
    | some s ↦ some (delaying last newest)
  ]
]

-- changes[newest->participant] is there once it has been referred to.
abbrev pub Noted : Type 0
Noted = Assoc ParticipantChanges

unfoldable pub changing : Option (ParticipantChanges → ParticipantChanges) → ℕ → Noted → Noted
changing none participant noted = noted
changing (some f) participant noted =
    insert participant (f (lookup_or participant no_changes noted)) noted

-- PatchRelevanceInspector::inspect
unfoldable pub inspect : Modular → ℕ → (BaseRouteEntry → Bool) → Position → Noted → Noted
unfolding get_last_known_ancestor get_most_recent note_change changing
inspect m after relevant p noted =
    let last = get_last_known_ancestor m after p in
    let newest = get_most_recent p in
    if same_entry last newest
    then noted
    else changing (note_change relevant last newest) (base newest).participant noted

-- FirstPatchRelevanceInspector::inspect
unfoldable pub inspect_first : (BaseRouteEntry → Bool) → Position → Noted → Noted
unfolding get_most_recent note_change changing
inspect_first relevant p noted =
    let newest = get_most_recent p in
    changing (note_change relevant none newest) (base newest).participant noted

abbrev pub contains_pair : ℕ → ℕ → List (ℕ × ℕ) → Bool
contains_pair p s [] = false
contains_pair p s ((q, t) ∷ xs) = ((q == p) && (t == s)) || contains_pair p s xs

-- TimelineView::inspect_all_spacetime: the entries of a bucket, each storage id once. The entry's
-- description is there in the database.
unfoldable pub inspect_all {ℓ} :
    {A : Type ℓ} → (ℕ → Bool) → (Position → A → A) → List (ℕ × ℕ) → List Position → A → A
inspect_all ignore f checked [] a = a
inspect_all ignore f checked (p ∷ ps) a =
    let participant = (base p.entry).participant in
    let storage_id = (base p.entry).storage_id in
    let skip = ignore participant || contains_pair participant storage_id checked in
    inspect_all ignore f (if skip then checked else (participant, storage_id) ∷ checked) ps
      (if skip then a else f p a)

-- The relevance of an entry to a time span with an upper bound, as both cull functions ask for it
unfoldable pub starts_by : ℤ → Trajectory → Bool
unfolding start_time
starts_by time t = elim (start_time t) [ none ↦ false | some s ↦ not (ltb_ℤ time s) ]

pub record PatchProgress : Type 0 where
  pub version : ℕ
  pub checkpoints : List ℕ

-- Patch::Participant
pub record ParticipantPatch : Type 0 where
  pub participant_id : ℕ
  pub itinerary_version : ℕ
  pub erasures : List ℕ
  pub delays : List ℤ
  pub plan_id : ℕ
  pub additions : List Item
  pub progress : Option PatchProgress

pub record SchedulePatch : Type 0 where
  pub participants : List ParticipantPatch
  pub cull : Option ℤ
  pub base_version : Option ℕ
  pub latest_version : ℕ

-- What changes() reads of a participant: its state and the tracker's last known version
pub record Tracked : Type 0 where
  pub last_known_version : ℕ
  pub state : ParticipantState

-- ForkInitializationInfo and CullInfo
pub record ForkInfo : Type 0 where
  pub initial_version : ℕ
  pub initial_version_maximum_time : ℤ

pub record CullInfo : Type 0 where
  pub time : ℤ
  pub version : ℕ

-- What changes() reads of the database
pub record Source : Type 0 where
  pub states : Assoc Tracked
  pub fork_info : Option ForkInfo
  pub last_cull : Option CullInfo
  pub schedule_version : ℕ

abbrev pub before : Option ℕ → ℕ → Bool
before none v = false
before (some after) v = ltb after v

abbrev pub progress_since : Option ℕ → ParticipantState → Option PatchProgress
progress_since after s = elim s.schedule_version_of_progress [
  | none ↦ none
  | some v ↦ elim after [
    | none ↦
        some (record { version = s.progress.version; checkpoints = s.progress.reached_checkpoints })
    | some a ↦
        if ltb a v
        then some
            (record { version = s.progress.version; checkpoints = s.progress.reached_checkpoints })
        else none
  ]
]

abbrev pub nothing_changed : ParticipantChanges → Bool
nothing_changed c = is_empty c.erasures && (is_empty c.delays && is_empty c.additions)

abbrev pub patch_of : Option ℕ → ℕ → ParticipantChanges → Tracked → ParticipantPatch
patch_of after participant c t = record {
  participant_id = participant;
  itinerary_version = t.last_known_version;
  erasures = c.erasures;
  delays = map (λ (e : ℕ × ℤ). e.1) c.delays;
  plan_id = t.state.latest_plan_id;
  additions = c.additions;
  progress = progress_since after t.state;
}

-- The loop over the participants; states.at throws where there is none.
unfoldable pub part_patches : Option ℕ → Assoc Tracked → Noted → Option (List ParticipantPatch)
part_patches after states [] = some []
part_patches after states ((p, c) ∷ noted) = do
  t ← lookup p states
  rest ← part_patches after states noted
  some (if nothing_changed c then rest else patch_of after p c t ∷ rest)

-- A fork that is asked for a version before its own answers as if for no version.
abbrev pub asked : Source → Option ℕ → Option ℕ
asked db none = none
asked db (some after) = elim db.fork_info [
  | none ↦ some after
  | some info ↦ if ltb after info.initial_version then none else some after
]

-- Database::changes for all of space and time, with the bucket of the timeline that holds all entries
unfoldable pub changes :
    Modular → (ℕ → Bool) → List Position → Source → Option ℕ → Option SchedulePatch
unfolding inspect inspect_first inspect_all part_patches
changes m ignore bucket db requested = do
  let after = asked db requested
  let relevant = λ (e : BaseRouteEntry). true
  let noted : Noted = elim after [
    | none ↦ inspect_all ignore (inspect_first relevant) [] bucket []
    | some a ↦ inspect_all ignore (inspect m a relevant) [] bucket []
  ]
  patches ← part_patches after db.states noted
  let cull : Option ℤ = elim db.last_cull [
    | none ↦ none
    | some info ↦ if before after info.version then some info.time else none
  ]
  some (record {
    participants = patches;
    cull = cull;
    base_version = after;
    latest_version = db.schedule_version;
  })
