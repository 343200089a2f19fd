-- ===== src/Node/Settings.antt =====
-- The options of dht/dhtpeer/options.go and dht/dhtclient/options.go, and the checks with which the
-- constructors of peers and clients begin.

use open_acn.Base.{
  String, ℕ, Bool, Option, none, some, List, Except, Err, msg, error_text, Result, ok, err, panic,
  if◌then◌else◌,
}
use open_acn.Base.Pure.{◌>>=◌}
use open_acn.Acn.Message.{AgentRecord, ◌+ˢ◌}
use open_acn.Por.Crypto.{Crypto}
use open_acn.Por.Signing.{Keys, fetchai_public_key_from_pub_key}
use open_acn.Por.Check.{Verdict, is_verified, is_valid_proof_of_representation}
use open_acn.Storage.{wrap}
use open_acn.Node.Addresses.{AddrInfo, Addresses}

-- `multiaddr.NewMultiaddr`, which gives the address as a text, and `%d`.
pub record Formats : Type 0 where
  pub addresses : Addresses
  pub new_multiaddr : String → Except String
  pub decimal : ℕ → String

abbrev pub default_persistent_storage_path : String
default_persistent_storage_path = "./agent_records_store"

-- `pbRecord`, which copies all but the dates.
abbrev pub copy_record : AgentRecord → AgentRecord
copy_record r = record r { not_before = ""; not_after = "" }

module _ (c : Crypto) (k : Keys c) where
  -- The fields of `DHTPeer` that the options set; the delay is in nanoseconds.
  pub record PeerSettings : Type 0 where
    pub host : String
    pub port : ℕ
    pub public_host : String
    pub public_port : ℕ
    pub delegate_port : ℕ
    pub monitoring_port : ℕ
    pub enable_relay : Bool
    pub mailbox_host_port : String
    pub registration_delay : ℕ
    pub key_pair : Option (k.PrivKey × k.NodeKey)
    pub local_multiaddr : Option String
    pub public_multiaddr : Option String
    pub bootstrap_peers : List AddrInfo
    pub my_agent_address : String
    pub my_agent_record : Option AgentRecord
    pub persistent_storage_path : String

  -- The fields of `DHTClient` that the options set.
  pub record ClientSettings : Type 0 where
    pub key_pair : Option (k.PrivKey × k.NodeKey)
    pub bootstrap_peers : List AddrInfo
    pub my_agent_address : String
    pub my_agent_record : Option AgentRecord

  -- What the public key is, where it has an error no key, and the error.
  abbrev pub own_key : Result String → Result (String × Option Err)
  own_key (ok key) = ok (key, none)
  own_key (err e) = ok ("", some e)
  own_key panic = panic

  -- The check of the agent's own record, with the error that `failure` makes of the two errors.
  abbrev pub judge : (Option Err → Option Err → Err) → Option Err → Verdict → Result (Unit {0})
  judge failure none verdict = if is_verified verdict then ok tt else err (failure none verdict.1)
  judge failure (some e) verdict = err (failure (some e) verdict.1)

  unfoldable pub check_record :
      (Option Err → Option Err → Err) → k.NodeKey → AgentRecord → Result (Unit {0})
  check_record failure public_key r = do
    key ← own_key (fetchai_public_key_from_pub_key c k public_key)
    verdict ← is_valid_proof_of_representation c r r.address key.0
    judge failure key.1 verdict

  abbrev pub wrap_proof : Err → Option Err → Err
  wrap_proof e none = e
  wrap_proof e (some p) = wrap e (error_text p)

  abbrev pub peer_failure : Option Err → Option Err → Err
  peer_failure none proof = wrap_proof (msg "Invalid AgentRecord") proof
  peer_failure (some e) proof = wrap_proof (wrap e "Invalid AgentRecord") proof

  abbrev pub dashed : Option Err → String
  dashed none = ""
  dashed (some e) = " - " +ˢ error_text e

  abbrev pub client_failure : Option Err → Option Err → Err
  client_failure key proof = msg ("Invalid AgentRecord" +ˢ dashed key +ˢ dashed proof)
