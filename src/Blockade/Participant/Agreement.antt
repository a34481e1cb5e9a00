-- ===== src/Blockade/Participant/Agreement.antt =====
-- What the calls of check(status) do to the moderator.
use rmf_traffic.Base.Modular.{Modular}
use rmf_traffic.Blockade.Moderator.{Moderator}
use rmf_traffic.Blockade.Participant.{Participant}
