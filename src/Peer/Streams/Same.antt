-- ===== src/Peer/Streams/Same.antt =====
-- The state of the peer under `_routeEnvelopeWithNewStream`, `lookupAddressDHT` and their callers.
use open_acn.Base.{
  ◌≡◌, refl, Option, Except, done, fail, Err, msg, ok, err, panic, Exec, pure, raise, deref,
  attempt, from_result, ◌>>=◌, ◌>>◌, if◌then◌else◌, if_both,
}
use open_acn.Wire.Word.{Bytes}
use open_acn.Wire.Conn.{Conn}
use open_acn.Acn.Message.{AgentRecord, Envelope, StatusBody, is_success}
use open_acn.Acn.Protocol.Send.{send_envelope_message}
use open_acn.Acn.Protocol.Receive.{read_acn_status}
use open_acn.Common.Proof.{status_text}
use open_acn.Common.Line.{on_new_stream, Line, line_pipe, end_line, reset}
use open_acn.Common.Line.Node.{
  KeepsNode, bind-KeepsNode, attempt-KeepsNode, from_result-KeepsNode, deref-KeepsNode,
  send_envelope_message-KeepsNode, read_acn_status-KeepsNode,
}
use open_acn.Peer.State.{DhtPeer, Environment, PeerId}
use open_acn.Peer.Records.{get_envelope_acn_record}
use open_acn.Peer.Streams.{
  serialized, sent, delivered, lookup_address_dht, Resolved, route_envelope_with_new_stream,
  with_record, route_envelope_dht_lookup,
}

module _ (env : Environment) {S : Type 0} (r : Option AgentRecord) where
  reset-KeepsNode : (e : Err) → KeepsNode {S = S} (end_line reset >> raise {A = Unit {0}} e)
  reset-KeepsNode e = record { kept = λ t. refl }

  confirmed-KeepsNode :
      (b : StatusBody)
      → KeepsNode {S = S} (if is_success b.code then pure tt else raise (msg (status_text b)))
  confirmed-KeepsNode b =
      if_both (KeepsNode {S = S}) (is_success b.code) (pure tt) (raise (msg (status_text b)))
        (from_result-KeepsNode (ok tt)) (from_result-KeepsNode (err (msg (status_text b))))

  delivered-KeepsNode :
      (status_body : Option StatusBody) → KeepsNode {S = S} (delivered env r status_body)
  delivered-KeepsNode x =
      bind-KeepsNode (deref x)
        (λ b. if is_success b.code then pure tt else raise (msg (status_text b)))
        (deref-KeepsNode x) confirmed-KeepsNode

  sent-KeepsNode : (x : Except (Unit {0})) → KeepsNode {S = S} (sent env r x)
  sent-KeepsNode (fail e) = reset-KeepsNode e
  sent-KeepsNode (done _) =
      bind-KeepsNode (read_acn_status env.messages line_pipe) (delivered env r)
        (read_acn_status-KeepsNode env.messages) delivered-KeepsNode

  serialized-KeepsNode : (x : Except Bytes) → KeepsNode {S = S} (serialized env r x)
  serialized-KeepsNode (fail e) = reset-KeepsNode e
  serialized-KeepsNode (done b) =
      bind-KeepsNode (attempt (send_envelope_message env.messages line_pipe b r)) (sent env r)
        (attempt-KeepsNode (send_envelope_message env.messages line_pipe b r)
          (send_envelope_message-KeepsNode env.messages b r))
        sent-KeepsNode

  dropped :
      (m : Exec (Line × S) (Unit {0}))
      → KeepsNode m
      → (x : Except Conn) (s : S) → (on_new_stream m x s).1 ≡ s
  dropped m h (fail e) s = refl
  dropped m h (done c) s = h.kept _

  pub route_envelope_with_new_stream_same :
      (e : Envelope) (id : PeerId) (s : S) → (route_envelope_with_new_stream env r e id s).1 ≡ s
  unfolding route_envelope_with_new_stream
  route_envelope_with_new_stream_same e id s =
      dropped (serialized env r (env.envelopes.marshal e))
        (serialized-KeepsNode (env.envelopes.marshal e)) (env.new_stream id) s

pub route_envelope_dht_lookup_same :
    (env : Environment) (e : Envelope) (s : DhtPeer) → (route_envelope_dht_lookup env e s).1 ≡ s
unfolding route_envelope_dht_lookup
route_envelope_dht_lookup_same env e s = go (get_envelope_acn_record s e)
  where
    looked :
        (r : Option AgentRecord) (x : Resolved)
        → ((from_result x >>= λ found. route_envelope_with_new_stream env r e found.0) s).1 ≡ s
    looked r (ok found) = route_envelope_with_new_stream_same env r e found.0 s
    looked r (err y) = refl
    looked r panic = refl

    go : (x : Except (Option AgentRecord)) → (with_record env e x s).1 ≡ s
    go (fail y) = refl
    go (done r) = looked r (lookup_address_dht env e.to)
