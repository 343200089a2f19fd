-- ===== src/Node/Run.antt =====
-- `main` of libp2p_node.go as a whole: the configuration, the node, the connection to the agent, and
-- the loop that routes what the agent sends.
pub mod Laws
use open_acn.Base.{
  String, Bool, true, false, Option, none, some, Except, Result, ok, err, panic, Exec, List, [],
}
use open_acn.Wire.Conn.{Conn}
use open_acn.Acn.Message.{AgentRecord, Envelope}
use open_acn.Aea.Config.{Config, Os, init}
use open_acn.Aea.Api.{
  AeaApi, Step, stepped, waits, RoundEnd, goes_on, returns, idle, take_out, connect,
}
use open_acn.Por.Signing.{Keys}
use open_acn.Peer.State.{Environment}
use open_acn.Client.State.{DhtClient}
use open_acn.Node.Settings.{Formats, PeerSettings, ClientSettings}
use open_acn.Node.Main.{Delays, NodeSettings, client, peer, check, main}
use open_acn.Node.Close.{Running, RunningClient}
use open_acn.Node.Start.{Setup, set_up, fresh, with_peer}
use open_acn.Node.StartClient.{ClientSetup, set_up_client, fresh_client}

-- What the libraries give to a client, with a client whose own fields are those of its settings.
pub record ClientLibraries (S : Type 0) : Type 1 where
  pub base : DhtClient S
  pub calls : ClientSetup
  pub state : S

pub data Node : Type 0 where
  peer_node : Running → Node
  client_node : RunningClient → Node

-- `agent` after `Init`, over a pipe that is not open.
abbrev pub api_of : {F : Type 0} → Conn → Config F → AeaApi
api_of unopened agent = record {
  agent_addr = agent.agent_addr;
  agent_record = agent.agent_record;
  standalone = agent.standalone;
  connected = agent.connected;
  closing = false;
  queues_closed = false;
  pipe = unopened;
  out_queue = [];
  send_queue = [];
  acn_status_chan = [];
  waiting = none;
}

abbrev pub attach : Node → Result (Unit {0}) × AeaApi → Result (AeaApi × Node)
attach node (ok _, api) = ok (api, node)
attach node (err e, api) = err e
attach node (panic, api) = panic

module _ {N : Type 0} (route : Envelope → Exec N (Unit {0})) where
  abbrev beside : AeaApi → Result (Unit {0}) × N → Result RoundEnd × (AeaApi × N)
  beside api (ok _, n) = (ok goes_on, (api, n))
  beside api (err e, n) = (ok goes_on, (api, n))
  beside api (panic, n) = (panic, (api, n))

  abbrev forwarded : N → (Step × Option Envelope) × AeaApi → Result RoundEnd × (AeaApi × N)
  forwarded n ((stepped, none), api) = (ok returns, (api, n))
  forwarded n ((waits, none), api) = (ok idle, (api, n))
  forwarded n ((step, some envel), api) = beside api (route envel n)

  -- A round of the loop over `agent.Queue()`: an error of the routing is logged.
  unfoldable pub forward_round : Exec (AeaApi × N) RoundEnd
  forward_round (api, n) = forwarded n (take_out api.queues_closed api.out_queue api)

module _ (env : Environment) (k : Keys env.crypto) {F S : Type 0} (f : Formats) (delays : Delays F)
    (setup : Setup) (libraries : ClientLibraries S) (unopened : Conn) (opened : Except Conn) where
  abbrev pub started_peer : Result Running → Result Node
  started_peer (ok t) = ok (peer_node t)
  started_peer (err e) = err e
  started_peer panic = panic

  abbrev pub started_client :
      Option (Result (Unit {0}) × (RunningClient × S)) → Option (Result Node)
  started_client none = none
  started_client (some (ok _, (r, s))) = some (ok (client_node r))
  started_client (some (err e, (r, s))) = some (err e)
  started_client (some (panic, (r, s))) = some panic

  abbrev pub own_client : ClientSettings env.crypto k → AgentRecord → DhtClient S
  own_client s r = record libraries.base {
    my_agent_address = s.my_agent_address;
    my_agent_record = r;
  }

  -- A client without a record does not pass the checks.
  abbrev pub start_client : ClientSettings env.crypto k → Option AgentRecord → Option (Result Node)
  start_client s none = some panic
  start_client s (some r) = started_client (
      set_up_client libraries.calls (own_client s r) s.bootstrap_peers
        (fresh_client, libraries.state))

  unfoldable pub start_node : NodeSettings env.crypto k → Option (Result Node)
  start_node (peer s) =
      some (started_peer (with_peer setup env k (set_up setup env k s (fresh setup env k s))))
  start_node (client s) = start_client s s.my_agent_record

  -- `check` of the error of `New`, and of that of `Connect`.
  abbrev pub connected_node : Config F → Option (Result Node) → Option (Result (AeaApi × Node))
  connected_node agent none = none
  connected_node agent (some (ok node)) =
      some (check (attach node (connect opened (api_of unopened agent))))
  connected_node agent (some _) = some panic

  abbrev pub configured_node :
      Config F → Result (NodeSettings env.crypto k) → Option (Result (AeaApi × Node))
  configured_node agent (ok n) = connected_node agent (start_node n)
  configured_node agent _ = some panic

  -- Up to the wait for a signal; `none` is a client whose bootstrap goes on for ever.
  unfoldable pub run : Os F → Config F → Option (Result (AeaApi × Node))
  unfolding start_node
  run os agent = configured_node (init os agent).1 (main env.crypto k f delays os agent)
