-- ===== src/Route.antt =====
-- Trajectory.cpp and Route.cpp: trajectories as the times of their waypoints. A time or a duration is
-- a signed number of nanoseconds; where a waypoint is and how fast, which the operations here do
-- not read, is a number.
use rmf_traffic.Base.{ℕ, zero, suc, ◌&&◌, Option, none, some, List, [], ◌∷◌, if◌then◌else◌}
use rmf_traffic.Base.Int.{ℤ, pos, ◌+ℤ◌, ltb_ℤ, leb_ℤ}

pub record Waypoint : Type 0 where
  pub time : ℤ
  pub motion : ℕ

abbrev pub Trajectory : Type 0
Trajectory = List Waypoint

pub record Route : Type 0 where
  pub map_name : ℕ
  pub trajectory : Trajectory

-- `it->data.time += delta_t` for the waypoints from the first one
unfoldable pub shift : ℤ → Trajectory → Trajectory
shift d [] = []
shift d (w ∷ ws) = record w { time = w.time +ℤ d } ∷ shift d ws

-- Waypoint::adjust_times of the waypoint with the index; `none` is the exception, or no waypoint
unfoldable pub adjust_times : ℕ → ℤ → Trajectory → Option Trajectory
unfolding shift
adjust_times i d [] = none
adjust_times zero d (w ∷ ws) = some (shift d (w ∷ ws))
adjust_times (suc zero) d (w ∷ []) = none
adjust_times (suc zero) d (w ∷ v ∷ ws) =
    if ltb_ℤ d (pos 0) && leb_ℤ (v.time +ℤ d) w.time then none else some (w ∷ shift d (v ∷ ws))
adjust_times (suc (suc i)) d (w ∷ ws) = elim (adjust_times (suc i) d ws) [
  | none ↦ none
  | some t ↦ some (w ∷ t)
]

unfoldable pub start_time : Trajectory → Option ℤ
start_time [] = none
start_time (w ∷ ws) = some w.time

unfoldable pub finish_time : Trajectory → Option ℤ
finish_time [] = none
finish_time (w ∷ []) = some w.time
finish_time (w ∷ v ∷ ws) = finish_time (v ∷ ws)

-- `route.trajectory().front().adjust_times(delay)`
unfoldable pub delayed : ℤ → Route → Route
unfolding shift
delayed d r = record r { trajectory = shift d r.trajectory }
