-- ===== src/Schedule/Entry.antt =====
-- schedule/Database.cpp and Timeline.hpp: the entries of a route in the database. An entry that
-- replaced another one holds it; the weak pointer to the successor goes the other way.
use rmf_traffic.Base.{ℕ, suc, Option, none, some, List, [], ◌∷◌, if◌then◌else◌}
use rmf_traffic.Base.Modular.{Modular}
use rmf_traffic.Base.Int.{ℤ}
use rmf_traffic.Route.{Route}

-- ParticipantDescription.cpp; the profile's shapes are a number.
pub data Rx : Type 0 where
  invalid : Rx
  unresponsive : Rx
  responsive : Rx

pub record ParticipantDescription : Type 0 where
  pub name : List ℕ
  pub owner : List ℕ
  pub responsiveness : Rx
  pub profile : ℕ

-- BaseRouteEntry with the version of RouteEntry; `none` is the null pointer of a route that was
-- cleared.
pub record BaseRouteEntry : Type 0 where
  pub route : Option Route
  pub participant : ℕ
  pub plan_id : ℕ
  pub route_id : ℕ
  pub storage_id : ℕ
  pub description : ParticipantDescription
  pub schedule_version : ℕ

-- RouteEntry: without a transition, or with its delay and the predecessor that it is based on.
pub data RouteEntry : Type 0 where
  inserted : BaseRouteEntry → RouteEntry
  changed : BaseRouteEntry → Option ℤ → RouteEntry → RouteEntry

abbrev pub base : RouteEntry → BaseRouteEntry
base (inserted b) = b
base (changed b delay predecessor) = b

abbrev pub route_of : RouteEntry → Option Route
route_of e = (base e).route

abbrev pub version_of : RouteEntry → ℕ
version_of e = (base e).schedule_version

-- The number of predecessors, which tells the entries of a route apart.
unfoldable pub depth : RouteEntry → ℕ
depth (inserted b) = 0
depth (changed b delay predecessor) = suc (depth predecessor)

-- A pointer to an entry, with the entries that the successors' pointers lead to, the nearest first.
pub record Position : Type 0 where
  pub entry : RouteEntry
  pub successors : List RouteEntry

-- get_most_recent: `while (const auto successor = from->successor.lock())`
unfoldable pub last_of : RouteEntry → List RouteEntry → RouteEntry
last_of e [] = e
last_of e (s ∷ ss) = last_of s ss

unfoldable pub get_most_recent : Position → RouteEntry
unfolding last_of
get_most_recent p = last_of p.entry p.successors

module _ (m : Modular) (after : ℕ) where
  -- The second loop of get_last_known_ancestor, which goes on to successors that are not newer
  unfoldable pub known_successor : RouteEntry → List RouteEntry → RouteEntry
  known_successor e [] = e
  known_successor e (s ∷ ss) =
      let rest = known_successor s ss in if m.less_than after (version_of s) then e else rest

  -- The first loop, which goes back to an entry that is not newer, and then the second one. An entry
  -- that the first loop has passed is a successor.
  unfoldable pub ancestor_from : RouteEntry → List RouteEntry → Option RouteEntry
  unfolding known_successor
  ancestor_from (inserted b) ss =
      if m.less_than after b.schedule_version then none else some (known_successor (inserted b) ss)
  ancestor_from (changed b delay predecessor) ss =
      let back = ancestor_from predecessor (changed b delay predecessor ∷ ss) in
      if m.less_than after b.schedule_version
      then back
      else some (known_successor (changed b delay predecessor) ss)

  unfoldable pub get_last_known_ancestor : Position → Option RouteEntry
  unfolding ancestor_from
  get_last_known_ancestor p = ancestor_from p.entry p.successors
