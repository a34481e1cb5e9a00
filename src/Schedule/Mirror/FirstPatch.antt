-- ===== src/Schedule/Mirror/FirstPatch.antt =====
-- schedule/Database.cpp and Mirror.cpp: the changes since no version, for a mirror that begins from a
-- blank slate.
use rmf_traffic.Base.{
  ℕ, ◌<◌, ◌≡◌, refl, sym, ap, ◌∙◌, subst, inl, inr, Bool, true, false, Option, none, some, List, [],
  ◌∷◌, ◌==◌, if◌then◌else◌, arith, Bool-cases, Option-cases, All,
}
use rmf_traffic.Base.Modular.{Modular, half}
use rmf_traffic.Base.Int.{ℤ}
use rmf_traffic.Base.Assoc.{Assoc, lookup, lookup_or, map_values}
use rmf_traffic.Schedule.Entry.{RouteEntry, base, route_of, Position, get_most_recent}
use rmf_traffic.Schedule.Database.{◌>>=◌}
use rmf_traffic.Schedule.Patch.{
  Noted, inspect_first, inspect_all, contains_pair, changing, note_change, same_entry, CullInfo,
  Source, SchedulePatch, part_patches, before, changes,
}
use rmf_traffic.Schedule.Patch.Ancestor.{known_at, get_last_known_ancestor-known_at}
use rmf_traffic.Schedule.Patch.Log.{DelayLog}
use rmf_traffic.Schedule.Patch.Noting.{known_route, all_relevant}
use rmf_traffic.Schedule.Patch.Inspected.{IsVisit, seen, inspect_lem}
use rmf_traffic.Schedule.Mirror.{
  MirrorState, Mirror, blank_state, is_known, cleared, updated, update,
}
use rmf_traffic.Schedule.Mirror.Routes.{route_in}
use rmf_traffic.Schedule.Mirror.RoundTrip.{
  IsFiled, IsCopy, chains_of, patches, sent, updated-IsCopy,
}

module _ (m : Modular) (live : ℕ → Bool) (db : Source) (logs : ℕ → DelayLog)
    (bucket : List Position) (filed : IsFiled db logs bucket)
    (positive : (p id : ℕ) (e : RouteEntry)
      → lookup id (chains_of db p) ≡ some e
      → known_at 0 e ≡ none) where
  low : 0 < half
  low = omega arith

  abbrev see : Position → Noted → Noted
  see = seen (chains_of db) logs m 0 low

  inspect_first-seen :
      (pos : Position) (v : IsVisit (chains_of db) logs pos) (n : Noted)
      → inspect_first all_relevant pos n ≡ see pos n
  unfolding inspect_first
  inspect_first-seen pos v n =
      let newest =
        ap get_most_recent v.at
        ∙ (get_last_known_ancestor-known_at m 0 low v.back v.newest v.good.rises).1 in
      let unknown = positive v.participant v.storage_id v.newest v.held in
      ap (λ (x : RouteEntry). changing (note_change all_relevant none x) (base x).participant n)
        newest
      ∙ sym (
          inspect_lem (chains_of db) logs m 0 low pos v n
          ∙ ap
              (λ (x : Option RouteEntry).
                if same_entry x v.newest
                then n
                else changing (note_change all_relevant x v.newest) (base v.newest).participant n)
              unknown)

  inspect_all-first :
      (ps : List Position) (checked : List (ℕ × ℕ)) (n : Noted)
      → All (IsVisit (chains_of db) logs) ps
      → inspect_all (λ _. false) (inspect_first all_relevant) checked ps n
        ≡ inspect_all (λ _. false) see checked ps n
  unfolding inspect_all
  inspect_all-first [] checked n vs = refl
  inspect_all-first (pos ∷ ps) checked n vs =
      let q = (base pos.entry).participant in
      let t = (base pos.entry).storage_id in
      elim (Bool-cases (contains_pair q t checked)) [
        | inl skip ↦ rw skip (inspect_all-first ps checked n vs.1)
        | inr new ↦ rw new (
            ap (inspect_all (λ _. false) (inspect_first all_relevant) ((q, t) ∷ checked) ps)
              (inspect_first-seen pos vs.0 n)
            ∙ inspect_all-first ps ((q, t) ∷ checked) (see pos n) vs.1)
      ]

  abbrev first_patch : SchedulePatch
  first_patch = sent m live db logs bucket filed 0 low none

  abbrev cull_for : Option CullInfo → Option ℤ
  cull_for c = elim c [
    | none ↦ none
    | some info ↦ if before none info.version then some info.time else none
  ]

  cull_for-none : (c : Option CullInfo) → cull_for c ≡ none
  cull_for-none none = refl
  cull_for-none (some info) = refl

  changes-first : changes m (λ _. false) bucket db none ≡ some first_patch
  unfolding changes
  changes-first =
      let made = (patches m live db logs bucket filed 0 low none).1 in
      let same = inspect_all-first bucket [] [] filed.filed in
      let got = ap (part_patches none db.states) same ∙ made in
      rw (got, ◌>>=◌) (rw (cull_for-none db.last_cull) refl)

  blank_storage :
      (p : ℕ) (states : Assoc MirrorState)
      → (lookup_or p blank_state
          (map_values (λ (q : ℕ) (s : MirrorState). record s { storage = [] }) states)).storage
        ≡ []
  blank_storage p [] = refl
  blank_storage p ((k, s) ∷ states) = elim (Bool-cases (k == p)) [
    | inl own ↦ rw own refl
    | inr other ↦ rw other (blank_storage p states)
  ]

  blank-IsCopy : (mirror : Mirror) → IsCopy (known_route 0) db (cleared m live mirror)
  blank-IsCopy mirror p id =
      ap (route_in id) (blank_storage p mirror.states)
      ∙ sym (elim (Option-cases (lookup id (chains_of db p))) [
        | inl e ↦ rw e refl
        | inr (e, at) ↦ rw at (rw (positive p id e at, known_route) refl)
      ])

  -- For a database whose storage is filed in its bucket, with no stored entry of version 0, and any
  -- mirror that does not know the database's version yet: `changes` since no version throws nothing,
  -- `update` accepts the patch that it returns, and then the mirror has the version of the database
  -- and, for every participant and storage id, the database's route and no other.
  pub changes-update_first :
      (mirror : Mirror)
      → is_known m live mirror.latest_version db.schedule_version ≡ false
      → (patch : SchedulePatch) × (changes m (λ _. false) bucket db none ≡ some patch)
        × ((update m live patch mirror).1 ≡ true)
        × ((update m live patch mirror).0.latest_version ≡ some db.schedule_version)
        × IsCopy (λ e. route_of e) db (update m live patch mirror).0
  unfolding update
  changes-update_first mirror newer =
      let begun = cleared m live mirror in
      let whole =
        updated-IsCopy m live db logs bucket filed 0 low none begun (blank-IsCopy mirror) in
      let step : update m live first_patch mirror ≡ (updated m live first_patch begun, true) =
        rw newer refl in
      (
        first_patch,
        changes-first,
        ap (λ x. x.1) step,
        ap (λ x. x.0.latest_version) step ∙ whole.1,
        subst (λ x. IsCopy (λ e. route_of e) db x) (sym (ap (λ x. x.0) step)) whole.0,
      )
