-- ===== src/Peer/Streams.antt =====
-- What a peer asks of other peers: `_routeEnvelopeWithNewStream`, `lookupAddressDHT` and
-- `_routeEnvelopeDHTLookup` of dht/dhtpeer/dhtpeer.go. The peerstore and the metrics are left out.
pub mod Laws
pub mod Same
pub mod Delivery
use open_acn.Base.{
  String, Option, none, some, List, [], ◌∷◌, Except, done, fail, Err, msg, error_text, Result, ok,
  err, panic, Exec, pure, raise, lift, deref, attempt, from_result, ◌>>=◌, ◌>>◌, if◌then◌else◌,
  ◌=ˢ◌,
}
use open_acn.Wire.Word.{Bytes}
use open_acn.Wire.Conn.{Conn}
use open_acn.Wire.Pipe.{stream_pipe}
use open_acn.Acn.Message.{AgentRecord, Envelope, StatusBody, is_success, code_name, join, ◌+ˢ◌}
use open_acn.Acn.Protocol.Send.{send_envelope_message}
use open_acn.Acn.Protocol.Receive.{read_acn_status, perform_address_lookup}
use open_acn.Por.Check.{Verdict, is_verified, is_valid_proof_of_representation}
use open_acn.Por.PeerKeys.{id_from_fetchai_public_key}
use open_acn.Common.Proof.{status_text, proof_failure}
use open_acn.Common.Line.{on_new_stream, Line, line_pipe, end_line, open_still, reset}
use open_acn.Peer.State.{Cid, DhtPeer, Environment, PeerId, Provider, Lookup}
use open_acn.Peer.Records.{get_envelope_acn_record}

-- What a lookup returns: the id and the record, which is nil beside an empty id.
abbrev pub Resolved : Type 0
Resolved = Result (PeerId × Option AgentRecord)

-- What comes of one provider: the next one is tried, or the lookup returns.
pub data Tried : Type 0 where
  next_provider : Err → Tried
  returning : Resolved → Tried

-- What comes of one round of providers: the id of the last one and the last error, or a return.
pub data Round : Type 0 where
  finished : PeerId → Option Err → Round
  returned : Resolved → Round

abbrev pub followed : Tried → (Option Err → Round) → Round
followed (next_provider e) next = next (some e)
followed (returning r) next = returned r

abbrev pub ended : Option Err → Resolved
ended none = ok ("", none)
ended (some e) = err e

-- With no provider so far, the next round begins, or the lookup's time is up.
abbrev pub after_round : Round → (PeerId → Option Err → Resolved) → Resolved
after_round (returned r) retry = r
after_round (finished id e) retry = if id =ˢ "" then retry id e else ended e

module _ (env : Environment) where
  module _ {S : Type 0} (envel_rec : Option AgentRecord) where
    abbrev pub delivered : Option StatusBody → Exec (Line × S) (Unit {0})
    delivered status = do
      b ← deref status
      if is_success b.code then pure tt else raise (msg (status_text b))

    abbrev pub sent : Except (Unit {0}) → Exec (Line × S) (Unit {0})
    sent (fail e) = end_line reset >> raise e
    sent (done _) = do status_body ← read_acn_status env.messages line_pipe; delivered status_body

    abbrev pub serialized : Except Bytes → Exec (Line × S) (Unit {0})
    serialized (fail e) = end_line reset >> raise e
    serialized (done envel_bytes) = do
      r ← attempt (send_envelope_message env.messages line_pipe envel_bytes envel_rec)
      sent r

    unfoldable pub route_envelope_with_new_stream : Envelope → PeerId → Exec S (Unit {0})
    route_envelope_with_new_stream envel peer_id =
        on_new_stream (serialized (env.envelopes.marshal envel)) (env.new_stream peer_id)

  module _ (address : String) where
    abbrev pub identified : AgentRecord → Result PeerId → Tried
    identified r (ok id) = returning (ok (id, some r))
    identified r (err e) =
        returning (err (msg ("CRITICAL couldn't get peer ID from message:" +ˢ error_text e)))
    identified r panic = returning panic

    abbrev pub judged : AgentRecord → Result Verdict → Tried
    judged r (ok v) =
        if is_verified v
        then identified r (id_from_fetchai_public_key env.crypto r.peer_public_key)
        else next_provider (proof_failure v)
    judged r _ = returning panic

    -- A nil record panics where its peer key is read.
    abbrev pub replied : Result (Option AgentRecord) → Tried
    replied (ok (some r)) =
        judged r (is_valid_proof_of_representation env.crypto r address r.peer_public_key)
    replied (ok none) = returning panic
    replied (err e) = next_provider e
    replied panic = returning panic

    abbrev pub try_provider : Except Conn → Tried
    try_provider (fail e) = next_provider e
    try_provider (done c) =
        replied (perform_address_lookup env.messages stream_pipe address (some c)).0

    -- The loop over the providers of one round, from the id of the last provider and the last error.
    unfoldable pub providers_loop : List Provider → PeerId → Option Err → Round
    providers_loop [] id e = finished id e
    providers_loop (provider ∷ providers) id e =
        followed (try_provider provider.stream) (providers_loop providers provider.id)

    abbrev pub out_of_time : PeerId → Option Err → Resolved
    out_of_time id e =
        err (msg ("didn't find any provider for address" +ˢ " " +ˢ address +ˢ " within timeout"))

    -- The outer loop: the round at hand, and the rounds there is time for.
    unfoldable pub lookup_loop :
        List (List Provider) → List Provider → PeerId → Option Err → Resolved
    lookup_loop [] providers id e = after_round (providers_loop providers id e) out_of_time
    lookup_loop (next ∷ later) providers id e =
        after_round (providers_loop providers id e) (lookup_loop later next)

    abbrev pub search_providers : Except Cid → Resolved
    search_providers (fail e) = err e
    search_providers (done cid) =
        lookup_loop (env.find_providers cid).later (env.find_providers cid).first "" none

    unfoldable pub lookup_address_dht : Resolved
    lookup_address_dht = search_providers (env.compute_cid address)

  module _ (envel : Envelope) where
    abbrev pub with_record : Except (Option AgentRecord) → Exec DhtPeer (Unit {0})
    with_record (fail e) = raise e
    with_record (done envel_rec) = do
      found ← from_result (lookup_address_dht envel.to)
      route_envelope_with_new_stream envel_rec envel found.0

    unfoldable pub route_envelope_dht_lookup : Exec DhtPeer (Unit {0})
    route_envelope_dht_lookup s = with_record (get_envelope_acn_record s envel) s
