-- ===== src/Tests/NodeExamples.antt =====
-- The start of a node for "agent" that runs as a client, and its bootstrap from two entry peers.
use open_acn.Base.{
  All, String, ℕ, true, false, Option, none, some, [], ◌∷◌, done, fail, msg, ok, ◌≡◌, ◌≢◌, ◌⊎◌, ◌↔◌,
  refl, ◌=ˢ◌, if◌then◌else◌,
}
use open_acn.Base.GoMap.{GoMap, lookup}
use open_acn.Acn.Message.{AgentRecord}
use open_acn.Aea.Config.{Config, Os, init, host_port}
use open_acn.Aea.Config.Text.{split, parse_port}
use open_acn.Aea.Config.Accepts.{Accepts, configured}
use open_acn.Aea.Config.Laws.{init_lem}
use open_acn.Por.Check.{is_valid_proof_of_representation}
use open_acn.Por.Ledger.{
  agent_address_from_public_key, cosmos_address_from_public_key_with_prefix,
  verify_ledger_signature, verify_fetchai_signature_btc, btc_pub_key_from_fetchai_public_key,
  parse_fetchai_signature, convert_str_encoded_signature_to_der,
}
use open_acn.Por.Signing.{Keys, key_pair_from_fetchai_key, fetchai_public_key_from_pub_key}
use open_acn.Node.Addresses.{AddrInfo, get_peers_addr_info}
use open_acn.Node.Bootstrap.{Host, Network, bootstrap_connect}
use open_acn.Node.Bootstrap.Laws.{Some, Connects, InTable, bootstrap_connect_iff}
use open_acn.Node.Settings.{Formats, check_record}
use open_acn.Node.ClientOptions.{configure_client, check_settings}
use open_acn.Node.Main.{Delays, NodeSettings, client, configure_node, main}
use open_acn.Node.Main.Laws.{NodeOf, main-NodeOf}
use open_acn.Tests.Fixtures.{crypto}

abbrev text_or_empty : Option String → String
text_or_empty none = ""
text_or_empty (some t) = t

abbrev variables : GoMap String
variables =
    ("AEA_P2P_ID", "key")
    ∷ ("AEA_P2P_URI", "host:9000")
    ∷ ("AEA_TO_NODE", "in")
    ∷ ("NODE_TO_AEA", "out")
    ∷ ("AEA_AGENT_ADDR", "agent")
    ∷ ("AEA_P2P_ENTRY_URIS", "entry")
    ∷ ("AEA_P2P_POR_ADDRESS", "agent")
    ∷ ("AEA_P2P_POR_PUBKEY", "key")
    ∷ ("AEA_P2P_POR_PEER_PUBKEY", "agent")
    ∷ ("AEA_P2P_POR_LEDGER_ID", "cosmos")
    ∷ []

unfoldable pub get_variable : String → String
get_variable name = text_or_empty (lookup name variables)

abbrev pub os : Os ℕ
os = record {
  loaded = true;
  getenv = get_variable;
  resolve = λ uri. done tt;
  listen = λ uri. done tt;
  zero_delay = 0;
  parse_float = λ t. fail (msg "float");
}

abbrev pub fresh : Config ℕ
fresh = record {
  msgin_path = "";
  msgout_path = "";
  agent_addr = "";
  agent_record = none;
  id = "";
  entry_peers = [];
  host = "";
  port = 0;
  host_public = "";
  port_public = 0;
  host_delegate = "";
  port_delegate = 0;
  host_monitoring = "";
  port_monitoring = 0;
  mailbox_uri = "";
  registration_delay = 0;
  records_storage_path = "";
  pipe = none;
  connected = false;
  sandbox = false;
  standalone = false;
}

init_lem_example :
    (Accepts os × (init os fresh ≡ (ok tt, configured os fresh)))
    ⊎ ((¬ Accepts os) × ((t : Config ℕ) → init os fresh ≢ (ok tt, t)))
init_lem_example = init_lem os fresh refl refl

port_example : (configured os fresh).port ≡ 9000
unfolding get_variable lookup split parse_port
port_example = refl

abbrev pub one_key : Keys crypto
one_key = record {
  base64_encode = λ b. "";
  hex_part = λ b. [];
  asn1_unmarshal = λ d. done (0, 0);
  big_bytes = λ n. [];
  BtcKey = Unit;
  priv_key_from_bytes = λ b. (tt, tt);
  serialize_compressed = λ k. [];
  PrivKey = Unit;
  NodeKey = Unit;
  key_pair_from_std_key = λ k. done (tt, tt);
  unmarshal_secp256k1_public_key = λ b. done tt;
  raw = λ k. done [];
  sign = λ k t. done [];
  verify_with = λ k t s. done true;
}

abbrev pub entry : AddrInfo
entry = record { id = "entry"; addrs = "address" }

abbrev pub formats : Formats
formats = record {
  addresses = record { string_cast = λ t. some t; addr_info_from_p2p_addr = λ t. done entry };
  new_multiaddr = λ t. done t;
  decimal = λ n. "9000";
}

abbrev pub delays : Delays ℕ
delays = record { is_zero = λ n. false; whole = λ n. n }

abbrev pub own_record : AgentRecord
own_record = record {
  service_id = "";
  ledger_id = "cosmos";
  address = "agent";
  public_key = "key";
  peer_public_key = "agent";
  signature = "";
  not_before = "";
  not_after = "";
}

abbrev settings : NodeSettings crypto one_key
settings = client (record {
  key_pair = some (tt, tt);
  bootstrap_peers = entry ∷ [];
  my_agent_address = "agent";
  my_agent_record = some own_record;
})

runs : main crypto one_key formats delays os fresh ≡ ok settings
unfolding main init get_variable lookup host_port split parse_port configure_node configure_client
    check_settings key_pair_from_fetchai_key get_peers_addr_info check_record
    fetchai_public_key_from_pub_key is_valid_proof_of_representation agent_address_from_public_key
    cosmos_address_from_public_key_with_prefix verify_ledger_signature verify_fetchai_signature_btc
    btc_pub_key_from_fetchai_public_key parse_fetchai_signature convert_str_encoded_signature_to_der
runs = refl

main-NodeOf_example :
    Accepts os × NodeOf crypto one_key formats delays (configured os fresh) settings
main-NodeOf_example = main-NodeOf crypto one_key formats delays os fresh settings refl refl runs

-- A second peer does not answer, and so is not found in the routing table.
abbrev pub network : Network
network = record {
  connect = λ p. if p.id =ˢ "entry" then done tt else fail (msg "refused");
  in_table = λ id. id =ˢ "entry";
}

abbrev host : Host
host = record {
  peerstore = [];
  running = true;
  dht_running = true;
  stream_handlers = [];
  notified = [];
}

abbrev silent : AddrInfo
silent = record { id = "silent"; addrs = "" }

bootstrap_connect_iff_example :
    (((bootstrap_connect network (entry ∷ silent ∷ []) host).0 ≡ ok tt) ↔ (
      Some (Connects network) (entry ∷ silent ∷ []) × All (InTable network) (entry ∷ silent ∷ [])))
    × ((bootstrap_connect network (entry ∷ silent ∷ []) host).1
        ≡ record host { peerstore = entry ∷ silent ∷ [] })
bootstrap_connect_iff_example = bootstrap_connect_iff network (entry ∷ silent ∷ []) host
