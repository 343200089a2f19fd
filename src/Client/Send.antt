-- ===== src/Client/Send.antt =====
-- The part of a client's `RouteEnvelope` on the stream to the target.
pub mod Laws
use open_acn.Base.{
  Option, some, Except, done, fail, msg, Exec, pure, raise, deref, attempt, ◌>>=◌, ◌>>◌,
  if◌then◌else◌,
}
use open_acn.Wire.Word.{Bytes}
use open_acn.Acn.Message.{StatusBody, is_success}
use open_acn.Acn.Protocol.Send.{send_envelope_message}
use open_acn.Acn.Protocol.Receive.{read_acn_status}
use open_acn.Common.Line.{Line, line_pipe, end_line, closed, reset}
use open_acn.Common.Proof.{status_text}
use open_acn.Client.State.{DhtClient}

module _ {S : Type 0} (client : DhtClient S) where
  abbrev pub confirmed : StatusBody → Exec (Line × S) (Unit {0})
  confirmed b = if is_success b.code then pure tt else raise (msg (status_text b))

  abbrev pub answered : Except (Option StatusBody) → Exec (Line × S) (Unit {0})
  answered (fail e) = end_line reset >> raise e
  answered (done status) = do end_line closed; b ← deref status; confirmed b

  abbrev pub sent : Except (Unit {0}) → Exec (Line × S) (Unit {0})
  sent (fail e) = end_line reset >> raise e
  sent (done _) = do status ← attempt (read_acn_status client.messages line_pipe); answered status

  abbrev pub serialized : Except Bytes → Exec (Line × S) (Unit {0})
  serialized (fail e) = end_line reset >> raise e
  serialized (done envel_bytes) = do
    r ←
        attempt (
          send_envelope_message client.messages line_pipe envel_bytes (some client.my_agent_record))
    sent r
