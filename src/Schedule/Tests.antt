-- ===== src/Schedule/Tests.antt =====
-- Concrete runs of the schedule's parts, and each theorem at an input where its hypotheses hold.
use rmf_traffic.Base.{
  ℕ, ◌+◌, ◌*◌, ◌≤◌, ◌<◌, ◌≡◌, refl, true, false, none, some, List, [], ◌∷◌, length, get_or, map,
  arith, ◌==◌, if◌then◌else◌, Contains,
}
use rmf_traffic.Base.Modular.{modular}
use rmf_traffic.Schedule.Tracker.{Tracker, init}
use rmf_traffic.Schedule.Tracker.Check.{check}
use rmf_traffic.Schedule.Tracker.Check.Sound.{Answer, check_exact, init-IsSound}
use rmf_traffic.Schedule.Progress.{pull}
use rmf_traffic.Schedule.Progress.Latest.{Report, buff_all, furthest, reached_in, pull-furthest}
use rmf_traffic.Schedule.Delivery.{Change, deliver, deliver_all}
use rmf_traffic.Schedule.Delivery.Order.{Advances, deliver-Advances}
use rmf_traffic.Schedule.Delivery.Replay.{history}
use rmf_traffic.Schedule.Delivery.Converge.{registered, registered-IsInSync, deliver_all-history}

-- Version 3 sets a number, the others add to it.
abbrev sent : ℕ → Change ℕ
sent v = record { version = v; nullifying = v == 3; payload = 10 * v }

abbrev adjust : Change ℕ → ℕ → ℕ
adjust c s = if c.nullifying then c.payload else s + c.payload

sent_versioned : (v : ℕ) → (sent v).version ≡ v
sent_versioned v = refl

adjust_forgets :
    (v : ℕ) → (sent v).nullifying ≡ true → (s s' : ℕ) → adjust (sent v) s ≡ adjust (sent v) s'
adjust_forgets v h s s' = ground arith

abbrev arrivals : List ℕ
arrivals = 2 ∷ 4 ∷ 4 ∷ 1 ∷ 5 ∷ 3 ∷ []

arrivals_complete : (w : ℕ) → 0 < w → w ≤ 5 → Contains w arrivals
arrivals_complete w h k = ground arith

deliver_all-history_example :
    let d = deliver_all modular adjust 2 (map sent arrivals) (registered 0 7) in
    (d.tracker.ranges ≡ [])
    × (d.tracker.last_known_version ≡ 5)
    × (d.tracker.expected_version ≡ 6)
    × (d.state ≡ history adjust sent 1 7 6)
deliver_all-history_example =
    deliver_all-history modular adjust sent sent_versioned adjust_forgets 0 7 0 5 arrivals
      (omega arith) (omega arith) (omega arith) arrivals_complete

history_run : history adjust sent 1 7 6 ≡ 120
unfolding history
history_run = refl

deliver-Advances_example :
    Advances modular adjust sent sent_versioned adjust_forgets 1 7 2
      (registered 0 7)
      (deliver modular adjust 2 (sent 2) (registered 0 7))
deliver-Advances_example =
    deliver-Advances modular adjust sent sent_versioned adjust_forgets 1 7 0 2 (registered 0 7)
      (registered-IsInSync modular adjust sent sent_versioned adjust_forgets 0 7 (omega arith))
      (omega arith)

abbrev fresh : Tracker (Change ℕ)
fresh = init 0

check_exact_example : Answer fresh 3 false (check modular fresh 3 false)
unfolding init
check_exact_example =
    check_exact modular fresh 3 (init-IsSound {C = Change ℕ} 0 (omega arith)) (omega arith)
      (omega arith) false

abbrev reports : List Report
reports = (7, 1, 2, none) ∷ (5, 1, 4, some 7) ∷ (5, 1, 2, none) ∷ (5, 0, 1, none) ∷ []

pull-furthest_example :
    let (progress, buffer) = pull modular 5 3 (buff_all reports []) in
    (3 ≤ length progress.reached_checkpoints)
    × (get_or progress.reached_checkpoints 1 0 ≡ furthest 5 1 reports)
    × (reached_in 7 1 buffer ≡ (if modular.less_than_or_equal 7 5 then 0 else furthest 7 1 reports))
pull-furthest_example = pull-furthest modular reports 5 3 1 7
