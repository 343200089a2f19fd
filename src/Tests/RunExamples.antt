-- ===== src/Tests/RunExamples.antt =====
-- A program that runs as a peer for "agent".
use open_acn.Base.{ℕ, true, some, [], ◌∷◌, done, ok, ◌≡◌, refl, ◌=ˢ◌, if◌then◌else◌}
use open_acn.Base.GoMap.{lookup, insert, has}
use open_acn.Wire.Word.{uint32}
use open_acn.Wire.Conn.{read}
use open_acn.Wire.Buffered.{read_full, read_full_loop, read_buffered}
use open_acn.Storage.{init_agent_record_persistent_storage, load_loop}
use open_acn.Aea.Config.{Os, init, host_port}
use open_acn.Aea.Config.Text.{split, parse_port}
use open_acn.Aea.Api.{AeaApi, connect}
use open_acn.Por.Check.{is_valid_proof_of_representation}
use open_acn.Por.Ledger.{
  agent_address_from_public_key, cosmos_address_from_public_key_with_prefix,
  verify_ledger_signature, verify_fetchai_signature_btc, btc_pub_key_from_fetchai_public_key,
  parse_fetchai_signature, convert_str_encoded_signature_to_der,
}
use open_acn.Por.Signing.{key_pair_from_fetchai_key, fetchai_public_key_from_pub_key}
use open_acn.Peer.Announce.{is_address_announced, set_address_announced, register_agent_address}
use open_acn.Peer.Relay.{announce_all, announce_mine}
use open_acn.Node.Addresses.{get_peers_addr_info}
use open_acn.Node.Bootstrap.{bootstrap_connect, dial_errors, await_in_table}
use open_acn.Node.Settings.{PeerSettings, check_record, default_persistent_storage_path}
use open_acn.Node.PeerOptions.{configure_peer, check_settings}
use open_acn.Node.Main.{configure_node, main}
use open_acn.Node.Close.{Running}
use open_acn.Node.Start
use open_acn.Node.Start.{
  set_up, create_node, join_network, notify_all, load_and_announce, serve, launch_delegate_service,
  launch_mailbox_service,
}
use open_acn.Node.Run.{ClientLibraries, peer_node, api_of, run, start_node}
use open_acn.Node.Run.Laws.{Joined, run-Joined}
use open_acn.Tests.Fixtures.{crypto, quiet}
use open_acn.Tests.PeerExamples.{env}
use open_acn.Tests.ClientExamples.{client}
use open_acn.Tests.NodeExamples.{
  one_key, entry, os, fresh, formats, delays, own_record, get_variable,
}
use open_acn.Tests.StartExamples.{setup, client_setup}

-- The public address makes the node a peer.
abbrev public_os : Os ℕ
public_os = record os {
  getenv = λ name. if name =ˢ "AEA_P2P_URI_PUBLIC" then "host:9000" else get_variable name;
}

abbrev libraries : ClientLibraries (Unit {0})
libraries = record { base = client; calls = client_setup; state = tt }

abbrev settings : PeerSettings crypto one_key
settings = record {
  host = "host";
  port = 9000;
  public_host = "host";
  public_port = 9000;
  delegate_port = 0;
  monitoring_port = 0;
  enable_relay = true;
  mailbox_host_port = "";
  registration_delay = 0;
  key_pair = some (tt, tt);
  local_multiaddr = some "/ip4/host/tcp/9000";
  public_multiaddr = some "/dns4/host/tcp/9000";
  bootstrap_peers = entry ∷ [];
  my_agent_address = "agent";
  my_agent_record = some own_record;
  persistent_storage_path = default_persistent_storage_path;
}

abbrev running : Running
running = (set_up setup env one_key settings (Start.fresh setup env one_key settings)).1

abbrev connected : AeaApi
connected = record (api_of quiet fresh) {
  agent_addr = "agent";
  agent_record = some own_record;
  connected = true;
}

runs :
    run env one_key formats delays setup libraries quiet (done quiet) public_os fresh
    ≡ some (ok (connected, peer_node running))
unfolding run start_node main init get_variable lookup host_port split parse_port configure_node
    configure_peer check_settings key_pair_from_fetchai_key get_peers_addr_info check_record
    fetchai_public_key_from_pub_key is_valid_proof_of_representation agent_address_from_public_key
    cosmos_address_from_public_key_with_prefix verify_ledger_signature verify_fetchai_signature_btc
    btc_pub_key_from_fetchai_public_key parse_fetchai_signature convert_str_encoded_signature_to_der
    connect set_up create_node join_network notify_all load_and_announce serve
    launch_delegate_service launch_mailbox_service bootstrap_connect dial_errors await_in_table
    init_agent_record_persistent_storage load_loop read_full read_full_loop read_buffered uint32
    announce_all announce_mine register_agent_address is_address_announced set_address_announced
    insert has read
runs = refl

run-Joined_example :
    Joined env one_key formats delays setup libraries quiet
      (done quiet)
      public_os
      fresh
      own_record
      connected
      running
unfolding split get_variable lookup
run-Joined_example =
    run-Joined env one_key formats delays setup libraries quiet (done quiet) public_os fresh "entry"
      [] own_record connected running refl refl refl refl refl runs
