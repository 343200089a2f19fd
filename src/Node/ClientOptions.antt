-- ===== src/Node/ClientOptions.antt =====
-- The options of dht/dhtclient/options.go, and the checks with which `New` of a client begins. The
-- function that tells whether the agent is ready is left out.
use open_acn.Base.{
  String, Option, none, some, List, [], ◌∷◌, is_empty, msg, Result, ok, err, if◌then◌else◌, ◌=ˢ◌,
}
use open_acn.Base.Pure.{◌>>=◌, ◌>>◌}
use open_acn.Acn.Message.{AgentRecord}
use open_acn.Por.Crypto.{Crypto}
use open_acn.Por.Signing.{Keys, key_pair_from_fetchai_key}
use open_acn.Node.Addresses.{AddrInfo, get_peers_addr_info}
use open_acn.Node.Settings.{Formats, copy_record, ClientSettings, check_record, client_failure}

abbrev pub new_settings : (c : Crypto) (k : Keys c) → ClientSettings c k
new_settings c k = record {
  key_pair = none;
  bootstrap_peers = [];
  my_agent_address = "";
  my_agent_record = none;
}

module _ (c : Crypto) (k : Keys c) where
  abbrev pub ClientOption : Type 0
  ClientOption = ClientSettings c k → Result (ClientSettings c k)

  abbrev pub identity_from_fetchai_key : String → ClientOption
  identity_from_fetchai_key key s = do
    pair ← key_pair_from_fetchai_key c k key
    ok (record s { key_pair = some pair })

  abbrev pub register_agent_address : AgentRecord → ClientOption
  register_agent_address r s =
      ok (record s { my_agent_address = r.address; my_agent_record = some (copy_record r) })

  abbrev pub bootstrap_from : Formats → List String → ClientOption
  bootstrap_from f entry_peers s = do
    peers ← get_peers_addr_info f.addresses entry_peers
    ok (record s { bootstrap_peers = peers })

  abbrev pub apply_options : List ClientOption → ClientOption
  apply_options [] s = ok s
  apply_options (opt ∷ opts) s = do t ← opt s; apply_options opts t

  abbrev pub check_entries : List AddrInfo → Result (Unit {0})
  check_entries peers =
      if is_empty peers then err (msg "at least one boostrap peer should be provided") else ok tt

  abbrev pub check_own_record : k.NodeKey → Option AgentRecord → List AddrInfo → Result (Unit {0})
  check_own_record public_key none peers = err (msg "missing agent record")
  check_own_record public_key (some r) peers =
      check_record c k (client_failure c k) public_key r >> check_entries peers

  abbrev pub check_key : Option (k.PrivKey × k.NodeKey) → ClientSettings c k → Result (Unit {0})
  check_key none s = err (msg "private key must be provided")
  check_key (some pair) s =
      if s.my_agent_address =ˢ ""
      then err (msg "missing agent address")
      else check_own_record pair.1 s.my_agent_record s.bootstrap_peers

  unfoldable pub check_settings : ClientSettings c k → Result (Unit {0})
  check_settings s = check_key s.key_pair s

  -- `New` up to the choice of the relay.
  unfoldable pub configure_client : List ClientOption → Result (ClientSettings c k)
  unfolding check_settings
  configure_client opts = do s ← apply_options opts (new_settings c k); check_settings s; ok s
