-- ===== src/Client/Send/Laws.antt =====
-- What a client sent on the stream to the target.
use open_acn.Base.{
  ◌≡◌, ap, refl, ◌∙◌, Bool, true, false, Option, none, some, Except, done, fail, ok, pure, raise,
  lift, attempt, bind-eq-ok, attempt-eq-done, lift-eq-ok, if◌then◌else◌, msg,
}
use open_acn.Wire.Word.{Bytes}
use open_acn.Wire.Conn.{Conn}
use open_acn.Wire.Frame.{Stream, read_bytes, write_bytes}
use open_acn.Acn.Message.{Envelope, StatusBody, is_success, aea_envelope, status, message}
use open_acn.Acn.Protocol.Send.{send_envelope_message, encode_acn_envelope}
use open_acn.Acn.Protocol.Receive.{read_acn_status}
use open_acn.Acn.Protocol.Envelopes.{read_acn_status_iff}
use open_acn.Common.Line.{Line, line_pipe, closed, on_line, new_line, on_new_stream}
use open_acn.Common.Line.Node.{drop_line-eq-ok, on_line-eq-ok}
use open_acn.Common.Proof.{status_text}
use open_acn.Client.State.{DhtClient}
use open_acn.Client.Send.{confirmed, answered, sent, serialized}

-- The envelope was written on the stream as one message with the client's record, and the answer that
-- was read there is a status of success.
pub record WasSent {S : Type 0} (client : DhtClient S) (envel : Envelope) (conn : Conn)
    : Type 0 where
  pub envel_bytes : Bytes
  pub buf : Bytes
  pub after_write : Stream
  pub answer : Bytes
  pub after_read : Stream
  pub body : StatusBody
  pub serialized_as : client.envelopes.marshal envel ≡ done envel_bytes
  pub encoded_as :
      client.messages.marshal (
        message (
          aea_envelope
            (record { envelope = envel_bytes; agent_record = some client.my_agent_record })))
      ≡ done buf
  pub written : write_bytes buf (some conn) ≡ (ok tt, after_write)
  pub read_back : read_bytes after_write ≡ (ok answer, after_read)
  pub status_read : client.messages.unmarshal answer ≡ done (message (status (some body)))
  pub success : is_success body.code ≡ true

module _ {S : Type 0} (client : DhtClient S) (envel : Envelope) where
  confirmed-success :
      (b : StatusBody) (t u : Line × S)
      → confirmed client b t ≡ (ok tt, u)
      → is_success b.code ≡ true
  confirmed-success b t u h = go (is_success b.code) h
    where
      go :
          (x : Bool)
          → (if x then pure tt else raise (msg (status_text b))) t ≡ (ok tt, u)
          → x ≡ true
      go true k = refl
      go false k = cc

  module _ (conn : Conn) (s : S) (b : Bytes)
      (serialized_as : client.envelopes.marshal envel ≡ done b) where
    answered-WasSent :
        (t t2 u : Line × S) (status_body : Option StatusBody)
        → send_envelope_message client.messages line_pipe b
            (some client.my_agent_record)
            (new_line conn s)
          ≡ (ok tt, t)
        → read_acn_status client.messages line_pipe t ≡ (ok status_body, t2)
        → answered client (done status_body) t2 ≡ (ok tt, u)
        → WasSent client envel conn
    unfolding send_envelope_message encode_acn_envelope
    answered-WasSent t t2 u none h got k = cc
    answered-WasSent t t2 u (some body) h got k =
        let (buf, t', encoded, write) =
          bind-eq-ok (lift (encode_acn_envelope client.messages b (some client.my_agent_record)))
            line_pipe.write (new_line conn s) t h in
        let (encoded_as, same) =
          lift-eq-ok (encode_acn_envelope client.messages b (some client.my_agent_record))
            (new_line conn s) t' encoded in
        let (answer, read, decoded) =
          (read_acn_status_iff client.messages line_pipe (some body) t t2).0 got in
        record {
          envel_bytes = b;
          buf = buf;
          after_write = t.0.stream;
          answer = answer;
          after_read = t2.0.stream;
          body = body;
          serialized_as = serialized_as;
          encoded_as = encoded_as;
          written =
              on_line-eq-ok (write_bytes buf) (new_line conn s).0 s t
                (ap (on_line (write_bytes buf)) same ∙ write);
          read_back = on_line-eq-ok read_bytes t.0 t.1 t2 read;
          status_read = decoded;
          success = confirmed-success body (record t2.0 { ending = closed }, t2.1) u k;
        }

    sent-WasSent :
        (t u : Line × S)
        → send_envelope_message client.messages line_pipe b
            (some client.my_agent_record)
            (new_line conn s)
          ≡ (ok tt, t)
        → sent client (done tt) t ≡ (ok tt, u)
        → WasSent client envel conn
    sent-WasSent t u h k =
        let (x, t2, got, rest) =
          bind-eq-ok (attempt (read_acn_status client.messages line_pipe)) (answered client) t u
            k in
        go x t2 got rest
      where
        go :
            (x : Except (Option StatusBody)) (t2 : Line × S)
            → attempt (read_acn_status client.messages line_pipe) t ≡ (ok x, t2)
            → answered client x t2 ≡ (ok tt, u)
            → WasSent client envel conn
        go (fail y) t2 p q = cc
        go (done o) t2 p q =
            answered-WasSent t t2 u o h
              (attempt-eq-done (read_acn_status client.messages line_pipe) t t2 p) q

    serialized-WasSent :
        (u : Line × S)
        → serialized client (done b) (new_line conn s) ≡ (ok tt, u)
        → WasSent client envel conn
    serialized-WasSent u h =
        let (x, t, p, q) =
          bind-eq-ok
            (attempt
              (send_envelope_message client.messages line_pipe b (some client.my_agent_record)))
            (sent client) (new_line conn s) u h in
        go x t p q
      where
        go :
            (x : Except (Unit {0})) (t : Line × S)
            → attempt
                (send_envelope_message client.messages line_pipe b (some client.my_agent_record))
                (new_line conn s)
              ≡ (ok x, t)
            → sent client x t ≡ (ok tt, u)
            → WasSent client envel conn
        go (fail y) t p q = cc
        go (done _) t p q =
            sent-WasSent t u
              (attempt-eq-done
                (send_envelope_message client.messages line_pipe b (some client.my_agent_record))
                (new_line conn s) t p)
              q

  pub on_stream-WasSent :
      (conn : Conn) (s u : S)
      → on_new_stream (serialized client (client.envelopes.marshal envel)) (done conn) s
        ≡ (ok tt, u)
      → WasSent client envel conn
  on_stream-WasSent conn s u h = go (client.envelopes.marshal envel) refl h
    where
      go :
          (x : Except Bytes)
          → client.envelopes.marshal envel ≡ x
          → on_new_stream (serialized client x) (done conn) s ≡ (ok tt, u)
          → WasSent client envel conn
      go (fail y) p k = cc
      go (done b) p k =
          serialized-WasSent conn s b p (serialized client (done b) (new_line conn s)).1
            (drop_line-eq-ok (serialized client (done b) (new_line conn s)) u k)
