-- ===== src/Schedule/Dependencies/Older.antt =====
-- schedule/DependencyTracker.cpp: what deprecate_dependencies_before tells, and who waits after it.
use rmf_traffic.Base.{ℕ, ◌≡◌, Bool, true, List, [], ◌&&◌, ◌==◌, if◌then◌else◌, Contains}
use rmf_traffic.Base.Modular.{Modular}
use rmf_traffic.Schedule.Dependencies.{
  PlanDependencies, TrafficDependencies, Notice, deprecate, deprecate_older,
}
use rmf_traffic.Schedule.Dependencies.Waiting.{waiting, AllOrdered}

module _ (live : ℕ → Bool) where
  module _ (m : Modular) (plan : ℕ) where
    abbrev older : PlanDependencies → PlanDependencies × List Notice
    older plans = deprecate_older live m plan plans

    -- What deprecate_dependencies_before does to the subscriptions that wait
    abbrev pub Deprecates : ℕ → TrafficDependencies → TrafficDependencies × List Notice → Type 0
    Deprecates p deps (deps', told) =
        AllOrdered deps'
        × ((p' pl r c : ℕ)
            → waiting p' pl r c deps'
              ≡ (if (p == p') && m.less_than pl plan then [] else waiting p' pl r c deps))
        × ((pl r c w : ℕ)
            → live w ≡ true
            → m.less_than pl plan ≡ true
            → Contains w (waiting p pl r c deps)
            → Contains (deprecate w) told)
