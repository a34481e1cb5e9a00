-- ===== src/Schedule/Mirror/RoundTrip.antt =====
-- schedule/Database.cpp and Mirror.cpp: from the changes of the database to the mirror that has them.
use rmf_traffic.Base.{
  ℕ, ◌<◌, ◌≡◌, refl, sym, ap, ◌∙◌, subst, inl, inr, Bool, true, false, Option, none, some, List, [],
  ◌∷◌, ltb, leb, ◌==◌, ◌+◌, ◌%◌, if◌then◌else◌, is_empty, arith, Bool-cases, All,
}
use rmf_traffic.Base.Modular.{Modular, half, word}
use rmf_traffic.Base.Int.{ℤ}
use rmf_traffic.Base.Assoc.{lookup, lookup_or}
use rmf_traffic.Schedule.Entry.{RouteEntry, route_of, Position}
use rmf_traffic.Schedule.Database.{ParticipantStorage, ◌>>=◌}
use rmf_traffic.Schedule.Patch.{
  no_changes, Noted, inspect_all, ParticipantPatch, PatchProgress, Tracked, CullInfo, Source,
  SchedulePatch, asked, before, part_patches, changes,
}
use rmf_traffic.Schedule.Patch.Log.{DelayLog, Descends}
use rmf_traffic.Schedule.Patch.Noting.{IsLogged, known_route}
use rmf_traffic.Schedule.Patch.Inspected.{IsVisit, Visited, seen}
use rmf_traffic.Schedule.Patch.Whole.{bucket_noted}
use rmf_traffic.Schedule.Patch.Keys.{HasKeys, inspect_all-HasKeys, part_patches-some}
use rmf_traffic.Schedule.Mirror.{
  Mirror, blank_state, update_participants, tell_participants, deprecating, reaching, updated,
  update,
}
use rmf_traffic.Route.{Route}
use rmf_traffic.Schedule.Mirror.Routes.{route_in}
use rmf_traffic.Schedule.Mirror.Applied.{Mirrors, applied_at}
use rmf_traffic.Schedule.Mirror.Participants.{mirror_storage, update_participants-Becomes}

-- The stored routes of a participant, if it is there
abbrev pub stored : Option Tracked → ParticipantStorage
stored none = []
stored (some t) = t.state.storage

abbrev pub chains_of : Source → ℕ → ParticipantStorage
chains_of db p = stored (lookup p db.states)

-- What the database keeps of its storage: the entries of a route follow the log of the delays of its
-- participant, and the bucket holds entries of the stored routes, one of each at least.
pub record IsFiled (db : Source) (logs : ℕ → DelayLog) (bucket : List Position) : Type 0 where
  pub descends : (p : ℕ) → Descends (logs p)
  pub good :
      (p id : ℕ) (e : RouteEntry) → lookup id (chains_of db p) ≡ some e → IsLogged (logs p) p id e
  pub filed : All (IsVisit (chains_of db) logs) bucket
  pub whole :
      (p id : ℕ) (e : RouteEntry)
      → lookup id (chains_of db p) ≡ some e
      → Visited (chains_of db) logs p id bucket

-- A copy of every participant's routes, as they were at a version or as they are
abbrev pub IsCopy : (RouteEntry → Option Route) → Source → Mirror → Type 0
IsCopy get db mirror = (p : ℕ) → Mirrors get (chains_of db p) (mirror_storage p mirror)

stored-some :
    (o : Option Tracked) (id : ℕ) (e : RouteEntry)
    → lookup id (stored o) ≡ some e
    → (t : Tracked) × (o ≡ some t)
stored-some none id e h = absurd (cc)
stored-some (some t) id e h = (t, refl)

module _ (live : ℕ → Bool) (m : Modular) where
  abbrev Same : Mirror → Mirror → Type 0
  Same a b = (a.states ≡ b.states) × (a.latest_version ≡ b.latest_version)

  reaching-Same :
      (p plan : ℕ) (pr : Option PatchProgress) (mirror : Mirror)
      → Same (reaching m live p plan pr mirror) mirror
  reaching-Same p plan none mirror = (refl, refl)
  reaching-Same p plan (some pr) mirror = (refl, refl)

  -- The dependencies are told of, and nothing else changes.
  tell_participants-Same :
      (ps : List ParticipantPatch) (mirror : Mirror)
      → Same (tell_participants m live ps mirror) mirror
  unfolding tell_participants
  tell_participants-Same [] mirror = (refl, refl)
  tell_participants-Same (p ∷ ps) mirror =
      let now =
        reaching m live p.participant_id p.plan_id p.progress
          (deprecating m live p.participant_id p.plan_id mirror) in
      let next =
        if is_empty (lookup_or p.participant_id blank_state now.states).storage
        then deprecating m live p.participant_id ((p.plan_id + 1) % word) now
        else now in
      let same : Same next now =
        elim (Bool-cases (is_empty (lookup_or p.participant_id blank_state now.states).storage)) [
          | inl e ↦ rw e (refl, refl)
          | inr e ↦ rw e (refl, refl)
        ] in
      let first =
        reaching-Same p.participant_id p.plan_id p.progress
          (deprecating m live p.participant_id p.plan_id mirror) in
      let rest = tell_participants-Same ps next in
      (rest.0 ∙ same.0 ∙ first.0, rest.1 ∙ same.1 ∙ first.1)

-- A patch that holds what the inspection since a version has noted, for a requester that asked since
-- that version or, where nothing was there, since none
module _ (m : Modular) (live : ℕ → Bool) (db : Source) (logs : ℕ → DelayLog)
    (bucket : List Position) (filed : IsFiled db logs bucket) (after : ℕ) (low : after < half) where
  abbrev Has : ℕ → Type 0
  Has p = (t : Tracked) × (lookup p db.states ≡ some t)

  abbrev pub noted : Noted
  noted = inspect_all (λ _. false) (seen (chains_of db) logs m after low) [] bucket []

  noted-HasKeys :
      HasKeys
        (chains_of db)
        logs
        m
        after
        low
        Has
        (λ p id e h. stored-some (lookup p db.states) id e h)
        noted
  noted-HasKeys =
      inspect_all-HasKeys (chains_of db) logs m after low Has
        (λ p id e h. stored-some (lookup p db.states) id e h) bucket [] [] filed.filed (tt, tt)

  module _ (since : Option ℕ) where
    pub patches : (ps : List ParticipantPatch) × (part_patches since db.states noted ≡ some ps)
    patches = part_patches-some since db.states noted noted-HasKeys.1

    abbrev pub sent : SchedulePatch
    sent = record {
      participants = patches.0;
      cull = none;
      base_version = since;
      latest_version = db.schedule_version;
    }

    module _ (mirror : Mirror) (copy : IsCopy (known_route after) db mirror) where
      abbrev last : Mirror
      last = record (update_participants m patches.0 mirror) {
        latest_version = some db.schedule_version;
      }

      pub updated-IsCopy :
          IsCopy (λ e. route_of e) db (updated m live sent mirror)
          × ((updated m live sent mirror).latest_version ≡ some db.schedule_version)
      updated-IsCopy = (
        λ p.
            let all =
              bucket_noted (chains_of db) logs filed.descends m after low p bucket [] [] filed.filed
                (record { dropped = tt; added = tt; delayed = inl refl })
                (λ id e h c. absurd (cc)) in
            let (s, start, end) =
              update_participants-Becomes m since db.states noted patches.0 p mirror patches.1
                noted-HasKeys.0 in
            let told = (tell_participants-Same live m patches.0 last).0 in
            λ id.
              ap (λ x. route_in id (lookup_or p blank_state x).storage) told
              ∙ ap (route_in id) end
              ∙ applied_at m after p (logs p) (chains_of db p) (filed.good p)
                  (lookup_or p no_changes noted) all.0
                  (λ i e h. all.1 i e h (inr (filed.whole p i e h))) s (mirror_storage p mirror)
                  start (copy p) id,
        (tell_participants-Same live m patches.0 last).1,
      )

module _ (m : Modular) (live : ℕ → Bool) (db : Source) (logs : ℕ → DelayLog)
    (bucket : List Position) (filed : IsFiled db logs bucket) (after : ℕ) (low : after < half)
    (asks : asked db (some after) ≡ some after)
    (current : (info : CullInfo) → db.last_cull ≡ some info → ltb after info.version ≡ false) where
  abbrev patch_since : SchedulePatch
  patch_since = sent m live db logs bucket filed after low (some after)

  -- Nothing is culled, as the requester has seen the last cull.
  abbrev cull_for : Option ℕ → Option CullInfo → Option ℤ
  cull_for since c = elim c [
    | none ↦ none
    | some info ↦ if before since info.version then some info.time else none
  ]

  cull_for-none :
      (c : Option CullInfo)
      → ((info : CullInfo) → c ≡ some info → ltb after info.version ≡ false)
      → cull_for (asked db (some after)) c ≡ none
  cull_for-none none h = refl
  cull_for-none (some info) h =
      ap (λ (x : Option ℕ). cull_for x (some info)) asks ∙ (rw (h info refl) refl)

  changes-sent : changes m (λ _. false) bucket db (some after) ≡ some patch_since
  unfolding changes
  changes-sent =
      let none_culled : cull_for (asked db (some after)) db.last_cull ≡ none =
        cull_for-none db.last_cull current in
      let made = (patches m live db logs bucket filed after low (some after)).1 in
      rw asks (rw (made, ◌>>=◌) (rw none_culled refl))

  module _ (mirror : Mirror) (known : mirror.latest_version ≡ some after)
      (old : after < db.schedule_version) (copy : IsCopy (known_route after) db mirror) where
    update-sent : update m live patch_since mirror ≡ (updated m live patch_since mirror, true)
    unfolding update
    update-sent =
        let newer : leb db.schedule_version after ≡ false = ground (arith, old) in
        let same : (after == after) ≡ true = ground arith in rw known (rw newer (rw same refl))

    -- For a database whose storage is filed in its bucket, and a mirror that has all of its routes as
    -- they were at a version `after`, which the database answers for, lies in the lower half of the
    -- counter and is older than the database's, with no cull since: `changes` since that version throws
    -- nothing, `update` accepts the patch that it returns, and then the mirror has the version of the
    -- database and, for every participant and storage id, the database's route and no other.
    pub changes-update :
        (patch : SchedulePatch) × (changes m (λ _. false) bucket db (some after) ≡ some patch)
        × ((update m live patch mirror).1 ≡ true)
        × ((update m live patch mirror).0.latest_version ≡ some db.schedule_version)
        × IsCopy (λ e. route_of e) db (update m live patch mirror).0
    changes-update =
        let whole = updated-IsCopy m live db logs bucket filed after low (some after) mirror copy in
        (
          patch_since,
          changes-sent,
          ap (λ x. x.1) update-sent,
          ap (λ x. x.0.latest_version) update-sent ∙ whole.1,
          subst (λ x. IsCopy (λ e. route_of e) db x) (sym (ap (λ x. x.0) update-sent)) whole.0,
        )
