-- ===== src/Tests/RelayExamples.antt =====
-- A peer that a notification reaches, and at which the agent registers as a relay client.
use mathlib.Core.Path.{subst}
use open_acn.Base.{String, ap, done, ◌≡◌, [], ◌∷◌, ok, refl}
use open_acn.Wire.Frame.{frame}
use open_acn.Common.Line.{Line}
use open_acn.Common.Handlers.Exchange.{arriving_line}
use open_acn.Peer.State.{DhtPeer}
use open_acn.Peer.Relay.{RemotePeer}
use open_acn.Por.PeerKeys.{id_from_fetchai_public_key}
use open_acn.Common.Handlers.{key_or_empty}
use open_acn.Tests.Fixtures.{crypto, quiet}
use open_acn.Tests.PeerExamples.{peer}

abbrev registration : Line × DhtPeer
registration = arriving_line (record quiet { incoming = frame (8 ∷ []) ∷ [] }) peer

same_id : (k : String) → "peer" ≡ k → id_from_fetchai_public_key crypto k ≡ ok "id"
unfolding id_from_fetchai_public_key
same_id k h = subst (λ x. id_from_fetchai_public_key crypto x ≡ ok "id") h refl

-- The client at the other end has the key "peer", and the id of that key.
abbrev relayed : RemotePeer crypto
relayed = record {
  id = "id";
  public_key = done "peer";
  same_key = λ k h. same_id k (ap (λ x. key_or_empty x) h);
}
