-- ===== src/Schedule/StoreTests.antt =====
-- Concrete runs of the database's storage, its patches, the mirror and the dependencies, and each
-- theorem about them at an input where its hypotheses hold.
use rmf_traffic.Base.{
  ℕ, ◌+◌, ◌≡◌, refl, sym, ap, ◌∙◌, subst, inl, inr, Bool, true, false, none, some, List, [], ◌∷◌,
  arith, ltb, ◌==◌, if◌then◌else◌, Bool-cases,
}
use mathlib.Core.Option.{some-injective}
use rmf_traffic.Base.Modular.{modular}
use rmf_traffic.Base.Int.{pos}
use rmf_traffic.Base.Assoc.{lookup, lookup_or}
use rmf_traffic.Route.{Route, Waypoint, delayed}
use rmf_traffic.Schedule.Dependencies.{TrafficDependencies, reach, reached}
use rmf_traffic.Schedule.Dependencies.Waiting.{AllOrdered}
use rmf_traffic.Schedule.Dependencies.Told.{Reaches, reached-Reaches}
use rmf_traffic.Schedule.Entry.{
  ParticipantDescription, responsive, BaseRouteEntry, RouteEntry, inserted, changed, Position,
  route_of, get_most_recent, get_last_known_ancestor,
}
use rmf_traffic.Schedule.Delivery.Replay.{history}
use rmf_traffic.Schedule.Database.{registered_state}
use rmf_traffic.Schedule.Database.Calls.{
  ItineraryChange, set, extend, delay, clear, change, Workspace, apply_change,
}
use rmf_traffic.Schedule.Database.Plans.{plan_change, IsSendable, Follows, apply_change-Follows}
use rmf_traffic.Schedule.Database.Serves.{Serves-nil}
use rmf_traffic.Schedule.Database.Delivered.{sent_call, plan_by, unplanned, new_workspace}
use rmf_traffic.Schedule.Patch.{Source, SchedulePatch, CullInfo, changes}
use rmf_traffic.Schedule.Patch.Ancestor.{walk, known_at, get_last_known_ancestor-known_at}
use rmf_traffic.Schedule.Patch.Log.{DelayLog}
use rmf_traffic.Schedule.Patch.Noting.{IsLogged, known_route}
use rmf_traffic.Schedule.Patch.Upheld.{IsUpheld}
use rmf_traffic.Schedule.Patch.Upheld.Changes.{grown, Upholds, apply_change-Upholds}
use rmf_traffic.Schedule.Mirror.{Mirror, MirrorState, blank_state, update}
use rmf_traffic.Schedule.Mirror.Routes.{route_in}
use rmf_traffic.Schedule.Mirror.Applied.{stored_route}
use rmf_traffic.Schedule.Mirror.Participants.{mirror_storage}
use rmf_traffic.Schedule.Mirror.FirstPatch.{changes-update_first}
use rmf_traffic.Schedule.Mirror.RoundTrip.{IsFiled, IsCopy, chains_of, changes-update}

abbrev alive : ℕ → Bool
alive w = true

abbrev waypoint : ℕ → Waypoint
waypoint t = record { time = pos t; motion = 0 }

-- A route of two waypoints
abbrev trip : ℕ → Route
trip t = record { map_name = 1; trajectory = waypoint t ∷ waypoint (t + 10) ∷ [] }

abbrev robot : ParticipantDescription
robot = record { name = 7 ∷ []; owner = 8 ∷ []; responsiveness = responsive; profile = 0 }

-- The call that is sent with each version
abbrev call : ℕ → ItineraryChange
call v =
    if v == 1
    then set 3 (trip 0 ∷ []) 0
    else if v == 2
    then extend (trip 20 ∷ [])
    else if v == 3
    then delay (pos 5)
    else clear

call-IsSendable : (v : ℕ) → IsSendable (call v)
call-IsSendable v = elim (Bool-cases (v == 1)) [
  | inl a ↦ rw a ((omega arith, tt), omega arith)
  | inr a ↦ rw a (elim (Bool-cases (v == 2)) [
    | inl b ↦ rw b (omega arith, tt)
    | inr b ↦ rw b (elim (Bool-cases (v == 3)) [ inl c ↦ rw c tt | inr c ↦ rw c tt ])
  ])
]

abbrev start : Workspace
start = new_workspace robot 9 [] []

-- The clear comes first, the set in the middle, and one call twice.
abbrev arrivals : List ℕ
arrivals = 3 ∷ 2 ∷ 3 ∷ 1 ∷ []

history_run :
    (history plan_by (sent_call call) 1 unplanned 4).itinerary
    ≡ delayed (pos 5) (trip 0) ∷ delayed (pos 5) (trip 20) ∷ []
unfolding history plan_change change delayed
history_run = refl

apply_change-Follows_example :
    Follows (plan_change (call 1) unplanned) (apply_change modular alive (pos 100) 2 (call 1) start)
apply_change-Follows_example =
    apply_change-Follows modular alive (pos 100) 2 (call 1) unplanned start (call-IsSendable 1)
      (Serves-nil (start.state) refl (omega arith), refl)

-- Subscriptions 4 and 5 wait for the checkpoints 1 and 3 of route 0 of plan 6.
abbrev waiting : TrafficDependencies
waiting = (2, (6, (0, (1, 4 ∷ []) ∷ (3, 5 ∷ []) ∷ []) ∷ []) ∷ []) ∷ []

waiting_ordered : AllOrdered waiting
waiting_ordered = ((((((omega arith, tt), (tt, tt)), tt), tt), tt))

reached-Reaches_example : Reaches alive 2 6 (2 ∷ []) waiting (reached alive 2 6 (2 ∷ []) waiting)
reached-Reaches_example = reached-Reaches alive 2 6 (2 ∷ []) waiting waiting_ordered

reached_run : (reached alive 2 6 (2 ∷ []) waiting).1 ≡ reach 4 ∷ []
unfolding reached
reached_run = refl

-- A route that was inserted at version 1 and delayed at version 2
abbrev first_entry : BaseRouteEntry
first_entry = record {
  route = some (trip 0);
  participant = 0;
  plan_id = 3;
  route_id = 0;
  storage_id = 0;
  description = robot;
  schedule_version = 1;
}

abbrev entry : RouteEntry
entry =
    changed (record first_entry { route = some (delayed (pos 5) (trip 0)); schedule_version = 2 })
      (some (pos 5)) (inserted first_entry)

get_last_known_ancestor-known_at_example :
    (get_last_known_ancestor modular 1 (walk 0 entry []) ≡ known_at 1 entry)
    × (get_most_recent (walk 0 entry []) ≡ entry)
get_last_known_ancestor-known_at_example =
    get_last_known_ancestor-known_at modular 1 (omega arith) 0 entry
      (omega arith, omega arith, omega arith)

-- What the database has of participant 0, and the log of its delays
abbrev db : Source
db = record {
  states =
      (
        0,
        record {
          last_known_version = 4;
          state = record (registered_state robot 0) {
            active_routes = 0 ∷ [];
            storage = (0, entry) ∷ [];
            next_storage_id = 1;
            latest_plan_id = 3;
          };
        },
      )
      ∷ [];
  fork_info = none;
  last_cull = none;
  schedule_version = 2;
}

abbrev log_of : ℕ → DelayLog
log_of p = if 0 == p then (2, pos 5) ∷ [] else []

only_entry :
    (p id : ℕ) (e : RouteEntry)
    → lookup id (chains_of db p) ≡ some e
    → (p ≡ 0) × (id ≡ 0) × (e ≡ entry)
only_entry p id e h = elim (Bool-cases (0 == p)) [
  | inr a ↦ let missing : lookup id (chains_of db p) ≡ none = rw a refl in absurd (cc)
  | inl a ↦ elim (Bool-cases (0 == id)) [
    | inr b ↦ let missing : lookup id (chains_of db p) ≡ none = rw a (rw b refl) in absurd (cc)
    | inl b ↦
        let there : lookup id (chains_of db p) ≡ some entry = rw a (rw b refl) in
        (ground (arith, a), ground (arith, b), some-injective e entry (sym h ∙ there))
  ]
]

entry-IsLogged : IsLogged (log_of 0) 0 0 entry
unfolding delayed
entry-IsLogged = record {
  rises = (omega arith, omega arith, omega arith);
  owned = (refl, refl, (refl, refl));
  logged = inr (refl, refl, (trip 0, refl, refl), (tt, (trip 0, refl)));
}

-- The bucket has both entries, the old one first.
abbrev bucket : List Position
bucket = walk 1 entry [] ∷ walk 0 entry [] ∷ []

db-IsFiled : IsFiled db log_of bucket
db-IsFiled = record {
  descends = λ p. elim (Bool-cases (0 == p)) [ inl a ↦ rw a (tt, tt) | inr a ↦ rw a tt ];
  good = λ p id e h. let (a, b, c) = only_entry p id e h in rw (a, b, c) entry-IsLogged;
  filed = (
    record {
      participant = 0;
      storage_id = 0;
      back = 1;
      newest = entry;
      held = refl;
      at = refl;
      good = entry-IsLogged;
    },
    (
      record {
        participant = 0;
        storage_id = 0;
        back = 0;
        newest = entry;
        held = refl;
        at = refl;
        good = entry-IsLogged;
      },
      tt,
    ),
  );
  whole = λ p id e h. let (a, b, c) = only_entry p id e h in inl (sym a, sym b);
}

-- A mirror that has the route as it was at version 1
abbrev mirror : Mirror
mirror = record {
  descriptions = [];
  states =
      (
        0,
        record blank_state {
          storage =
              (
                0,
                record {
                  route = trip 0;
                  participant = 0;
                  plan_id = 3;
                  route_id = 0;
                  storage_id = 0;
                  description = some robot;
                },
              )
              ∷ [];
          current_plan_id = 3;
        },
      )
      ∷ [];
  participant_ids = 0 ∷ [];
  latest_version = some 1;
  dependencies = [];
  told = [];
}

mirror-IsCopy : IsCopy (known_route 1) db mirror
unfolding known_at
mirror-IsCopy p id = elim (Bool-cases (0 == p)) [
  | inr a ↦
      let blank : lookup_or p blank_state mirror.states ≡ blank_state = rw a refl in
      let missing : lookup id (chains_of db p) ≡ none = rw a refl in
      ap (λ (x : MirrorState). route_in id x.storage) blank
      ∙ sym (ap (stored_route (known_route 1)) missing)
  | inl a ↦
      let first : 0 ≡ p = ground (arith, a) in
      subst
        (λ (x : ℕ).
          route_in id (mirror_storage x mirror)
          ≡ stored_route (known_route 1) (lookup id (chains_of db x)))
        first (at_first id)
]
  where
    at_first :
        (id : ℕ)
        → route_in id (mirror_storage 0 mirror)
          ≡ stored_route (known_route 1) (lookup id (chains_of db 0))
    at_first id = elim (Bool-cases (0 == id)) [ inl b ↦ rw b refl | inr b ↦ rw b refl ]

none_culled : (info : CullInfo) → db.last_cull ≡ some info → ltb 1 info.version ≡ false
none_culled info h = absurd (cc)

changes-update_example :
    (patch : SchedulePatch) × (changes modular (λ _. false) bucket db (some 1) ≡ some patch)
    × ((update modular alive patch mirror).1 ≡ true)
    × ((update modular alive patch mirror).0.latest_version ≡ some 2)
    × IsCopy (λ e. route_of e) db (update modular alive patch mirror).0
changes-update_example =
    changes-update modular alive db log_of bucket db-IsFiled 1 (omega arith) refl none_culled mirror
      refl (omega arith) mirror-IsCopy

-- The state of a participant that has just registered
start-IsUpheld : IsUpheld 2 9 [] start.state
start-IsUpheld = record { descends = tt; past = tt; kept = λ id e h. absurd (cc) }

apply_change-Upholds_example :
    Upholds modular alive
      (pos 100)
      2
      10
      (grown (pos 100) (call 1) start [])
      (apply_change modular alive (pos 100) 2 (call 1) start)
apply_change-Upholds_example =
    apply_change-Upholds modular alive (pos 100) 2 (call 1) unplanned start [] (call-IsSendable 1)
      (omega arith) (omega arith) (Serves-nil (start.state) refl (omega arith), refl) start-IsUpheld

entry_positive :
    (p id : ℕ) (e : RouteEntry) → lookup id (chains_of db p) ≡ some e → known_at 0 e ≡ none
unfolding known_at
entry_positive p id e h =
    let (a, b, c) = only_entry p id e h in
    let unknown : known_at 0 entry ≡ none = refl in
    subst (λ (x : RouteEntry). known_at 0 x ≡ none) (sym c) unknown

changes-update_first_example :
    (patch : SchedulePatch) × (changes modular (λ _. false) bucket db none ≡ some patch)
    × ((update modular alive patch mirror).1 ≡ true)
    × ((update modular alive patch mirror).0.latest_version ≡ some 2)
    × IsCopy (λ e. route_of e) db (update modular alive patch mirror).0
changes-update_first_example =
    changes-update_first modular alive db log_of bucket db-IsFiled entry_positive mirror refl
