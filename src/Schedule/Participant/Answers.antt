-- ===== src/Schedule/Participant/Answers.antt =====
-- schedule/Participant.cpp: what the calls on a participant keep of its history.
use rmf_traffic.Base.{ℕ, suc, ◌≤◌}
use rmf_traffic.Base.Modular.{Modular}
use rmf_traffic.Schedule.Progress.{Progress}
use rmf_traffic.Schedule.Participant.{Participant}
use rmf_traffic.Schedule.Participant.History.{Counts}

-- The history has every version from its first to the participant's own.
abbrev pub IsWhole : Participant → Type 0
IsWhole p = (first : ℕ) × Counts first p.version p.change_history

-- A call makes one version at most.
abbrev Answers : Participant → Participant → Type 0
Answers p p' = IsWhole p' × (p.version ≤ p'.version) × (p'.version ≤ suc p.version)
