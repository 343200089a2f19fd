-- ===== src/Client/State.antt =====
-- What a `DHTClient` is made with, and the handlers of its agent's envelopes and of lookups.
use open_acn.Base.{
  String, Option, none, some, List, Except, done, fail, msg, Exec, pure, raise, attempt, ◌>>=◌,
  ◌>>◌, if◌then◌else◌, ◌=ˢ◌,
}
use open_acn.Wire.Conn.{Conn}
use open_acn.Acn.Message.{
  AgentRecord, Envelope, AcnMessage, error_agent_not_ready, error_unknown_agent_address,
}
use open_acn.Acn.Codec.{Codec}
use open_acn.Acn.Protocol.{AcnError}
use open_acn.Acn.Protocol.Receive.{send_agent_register_message}
use open_acn.Por.Crypto.{Crypto}
use open_acn.Common.Line.{Line, line_pipe, end_line, closed, on_new_stream}
use open_acn.Common.Handlers.{DhtHandler}

-- What the attempts of `NewStream` give: the first one, and those that begin before the timeout.
pub record Dials : Type 0 where
  pub first : Except Conn
  pub retries : List (Except Conn)

-- The protocols of the streams that the client opens in a loop.
pub data StreamType : Type 0 where
  aea_address_stream aea_envelope_stream : StreamType

-- The fields that `New` sets, over the state of the agent, with the libraries and the other peers.
pub record DhtClient (S : Type 0) : Type 1 where
  pub my_agent_address : String
  pub my_agent_record : AgentRecord
  pub relay_peer : String
  pub process_envelope : Option (Envelope → Exec S (Unit {0}))
  pub crypto : Crypto
  pub messages : Codec AcnMessage
  pub envelopes : Codec Envelope
  pub dials : String → StreamType → Dials
  -- `NewStream` to the relay with the registration protocol
  pub register_stream : Except Conn
  pub new_multiaddr : String → Except (Unit {0})
  -- `Connect` with the address through the relay, and with none
  pub connect_through_relay : String → Except (Unit {0})
  pub connect_by_routing : String → Except (Unit {0})

abbrev pub not_ready : AcnError
not_ready = record { error_code = error_agent_not_ready; cause = msg "agent is not ready" }

abbrev pub unknown_agent : AcnError
unknown_agent = record {
  error_code = error_unknown_agent_address;
  cause = msg "unknown agent address";
}

module _ {S : Type 0} (client : DhtClient S) where
  abbrev pub replied : Except (Unit {0}) → Exec (Line × S) (Unit {0})
  replied (fail e) = end_line closed >> raise e
  replied (done _) = end_line closed

  abbrev pub register_on_line : Exec (Line × S) (Unit {0})
  register_on_line = do
    r ←
        attempt
          (send_agent_register_message client.messages line_pipe (some client.my_agent_record))
    replied r

  unfoldable pub register_agent_address : Exec S (Unit {0})
  register_agent_address = on_new_stream register_on_line client.register_stream

  abbrev pub processed : Except (Unit {0}) → Exec S (Option AcnError)
  processed (fail e) = pure (some not_ready)
  processed (done _) = pure none

  abbrev pub to_agent : Envelope → Option (Envelope → Exec S (Unit {0})) → Exec S (Option AcnError)
  to_agent envel none = pure (some unknown_agent)
  to_agent envel (some f) = do r ← attempt (f envel); processed r

  unfoldable pub handle_aea_envelope : Envelope → Exec S (Option AcnError)
  handle_aea_envelope envel =
      if envel.to =ˢ client.my_agent_address
      then to_agent envel client.process_envelope
      else pure (some unknown_agent)

  unfoldable pub handle_aea_address_request : String → Exec S (Option AgentRecord × Option AcnError)
  handle_aea_address_request req_address =
      if req_address =ˢ client.my_agent_address
      then pure (some client.my_agent_record, none)
      else pure (none, some unknown_agent)

  -- The client as the handler of the streams that others open to it.
  abbrev pub client_handler : DhtHandler S
  client_handler = record {
    handle_aea_envelope = handle_aea_envelope;
    handle_aea_address_request = handle_aea_address_request;
  }
