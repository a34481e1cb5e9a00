-- ===== src/Schedule/Dependencies.antt =====
-- schedule/DependencyTracker.cpp and .hpp: the subscriptions that wait for a checkpoint of a plan of
-- another participant, and what tells them. The mutex is left out: each call is one step.
pub mod Waiting
pub mod Told
pub mod Older
use rmf_traffic.Base.{
  ℕ, ◌+◌, Bool, true, false, none, some, List, [], ◌∷◌, ◌++◌, length, get_or, ltb, leb, ◌==◌,
  if◌then◌else◌,
}
use rmf_traffic.Base.Modular.{Modular}
use rmf_traffic.Base.Assoc.{Assoc, lookup, insert, erase, emplace, lookup_or}

-- Route.hpp
pub record Dependency : Type 0 where
  pub on_participant : ℕ
  pub on_plan : ℕ
  pub on_route : ℕ
  pub on_checkpoint : ℕ

-- std::map<CheckpointId, std::vector<DependencyPtr>>, in the order of the checkpoints. A pointer is
-- the number of the subscription that it points at.
abbrev pub CheckpointDependencies : Type 0
CheckpointDependencies = List (ℕ × List ℕ)

abbrev pub RouteDependencies : Type 0
RouteDependencies = Assoc CheckpointDependencies

abbrev pub PlanDependencies : Type 0
PlanDependencies = Assoc RouteDependencies

abbrev pub TrafficDependencies : Type 0
TrafficDependencies = Assoc PlanDependencies

-- What a subscription is told
pub data Notice : Type 0 where
  reach : ℕ → Notice
  deprecate : ℕ → Notice

-- checkpoints[on_checkpoint].push_back(shared), in the order of the map
unfoldable pub add_checkpoint : ℕ → ℕ → CheckpointDependencies → CheckpointDependencies
add_checkpoint c w [] = (c, w ∷ []) ∷ []
add_checkpoint c w ((k, ws) ∷ cs) =
    if ltb k c
    then (k, ws) ∷ add_checkpoint c w cs
    else if k == c
    then (k, ws ++ (w ∷ [])) ∷ cs
    else (c, w ∷ []) ∷ (k, ws) ∷ cs

unfoldable pub add : Dependency → ℕ → TrafficDependencies → TrafficDependencies
unfolding add_checkpoint
add dep w deps =
    let plans = lookup_or dep.on_participant [] deps in
    let routes = lookup_or dep.on_plan [] plans in
    let checkpoints = lookup_or dep.on_route [] routes in
    insert dep.on_participant
      (insert dep.on_plan
        (insert dep.on_route (add_checkpoint dep.on_checkpoint w checkpoints) routes) plans)
      deps

-- Which of the weak pointers can be locked
module _ (live : ℕ → Bool) where
  -- The notices to the subscriptions that are alive
  unfoldable pub tell : (ℕ → Notice) → List ℕ → List Notice
  tell notice [] = []
  tell notice (w ∷ ws) = if live w then notice w ∷ tell notice ws else tell notice ws

  -- From begin() to upper_bound(checkpoint): the entries are told and erased.
  unfoldable pub reach_checkpoints :
      ℕ → CheckpointDependencies → CheckpointDependencies × List Notice
  unfolding tell
  reach_checkpoints limit [] = ([], [])
  reach_checkpoints limit ((c, ws) ∷ cs) =
      let rest = reach_checkpoints limit cs in
      if leb c limit then (rest.0, tell reach ws ++ rest.1) else ((c, ws) ∷ cs, [])

  -- The loop over the routes of the plan
  unfoldable pub reach_routes : List ℕ → RouteDependencies → RouteDependencies × List Notice
  unfolding reach_checkpoints
  reach_routes reached [] = ([], [])
  reach_routes reached ((r, cs) ∷ routes) =
      let (routes', told) = reach_routes reached routes in
      if leb (length reached) r
      then ((r, cs) ∷ routes', told)
      else let (cs', now) = reach_checkpoints (get_or reached r 0) cs in
        ((r, cs') ∷ routes', now ++ told)

  unfoldable pub reached : ℕ → ℕ → List ℕ → TrafficDependencies → TrafficDependencies × List Notice
  unfolding reach_routes
  reached participant plan checkpoints deps =
      let plans = lookup_or participant [] deps in
      elim (lookup plan plans) [
        | none ↦ (insert participant plans deps, [])
        | some routes ↦
            let (routes', told) = reach_routes checkpoints routes in
            (insert participant (insert plan routes' plans) deps, told)
      ]

  -- All subscriptions of a plan, in the order of the loops
  unfoldable pub deprecate_checkpoints : CheckpointDependencies → List Notice
  unfolding tell
  deprecate_checkpoints [] = []
  deprecate_checkpoints ((c, ws) ∷ cs) = tell deprecate ws ++ deprecate_checkpoints cs

  unfoldable pub deprecate_routes : RouteDependencies → List Notice
  unfolding deprecate_checkpoints
  deprecate_routes [] = []
  deprecate_routes ((r, cs) ∷ routes) = deprecate_checkpoints cs ++ deprecate_routes routes

  unfoldable pub deprecate_plans : PlanDependencies → List Notice
  unfolding deprecate_routes
  deprecate_plans [] = []
  deprecate_plans ((p, routes) ∷ plans) = deprecate_routes routes ++ deprecate_plans plans

  -- The loop of deprecate_dependencies_before over the plans of the participant
  unfoldable pub deprecate_older : Modular → ℕ → PlanDependencies → PlanDependencies × List Notice
  unfolding deprecate_routes
  deprecate_older m plan [] = ([], [])
  deprecate_older m plan ((p, routes) ∷ plans) =
      let (plans', told) = deprecate_older m plan plans in
      if m.less_than p plan
      then (plans', deprecate_routes routes ++ told)
      else ((p, routes) ∷ plans', told)

  unfoldable pub deprecate_dependencies_before :
      Modular → ℕ → ℕ → TrafficDependencies → TrafficDependencies × List Notice
  unfolding deprecate_older
  deprecate_dependencies_before m participant plan deps = elim (lookup participant deps) [
    | none ↦ (deps, [])
    | some plans ↦
        let (plans', told) = deprecate_older m plan plans in (insert participant plans' deps, told)
  ]

  unfoldable pub deprecate_dependencies_on :
      ℕ → TrafficDependencies → TrafficDependencies × List Notice
  unfolding deprecate_plans
  deprecate_dependencies_on participant deps = elim (lookup participant deps) [
    | none ↦ (deps, [])
    | some plans ↦ (erase participant deps, deprecate_plans plans)
  ]
