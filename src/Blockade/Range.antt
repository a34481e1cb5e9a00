-- ===== src/Blockade/Range.antt =====
-- blockade/Status.hpp: the range of checkpoints that is reserved for a participant.
use rmf_traffic.Base.{ℕ}
use rmf_traffic.Base.Assoc.{Assoc}

pub record ReservedRange : Type 0 where
  pub begin : ℕ
  pub end : ℕ

-- The assigned range of each participant.
abbrev pub State : Type 0
State = Assoc ReservedRange
