-- ===== src/Gateway/ClientHub/Sessions/Runs.antt =====
-- Sequences of the steps of the hub's connections.
use agent_console.Prelude.Dict
use agent_console.Gateway.ClientHub.{ClientHub}
use agent_console.Gateway.ClientHub.Mirror.{IsMirrored}
use agent_console.Gateway.ClientHub.Commands.{IsSettled}
use agent_console.Gateway.ClientHub.Sessions.{Served}
use agent_console.Gateway.ClientHub.Sessions.Soundness.{ApprovalsAgree}
use agent_console.Gateway.ClientHub.Sessions.Owners.{IsOwned}

-- What holds of the hub at any time: the index mirrors its snapshots, the table of the commands is
-- settled, the approvals agree with the registry's, and every machine is served by the connection
-- that registered it.
pub record IsSound (w : Served) : Type 0 where
  pub mirrored : IsMirrored w.hub
  pub settled : IsSettled w.hub
  pub approvals : ApprovalsAgree w.hub
  pub owned : IsOwned w.registered w.hub
