-- ===== src/Node/Main.antt =====
-- `main` of libp2p_node.go up to the set-up of the libp2p node: which kind of node the configuration
-- gives, and its options.
pub mod Peer
pub mod Client
pub mod Laws
use open_acn.Base.{
  not, String, ℕ, ◌*◌, ◌%◌, ◌^◌, Bool, true, false, Option, none, some, List, [], ◌∷◌, ◌++◌, Result,
  ok, err, panic, if◌then◌else◌, ◌==◌, ◌=ˢ◌,
}
use open_acn.Base.Pure.{◌>>=◌}
use open_acn.Acn.Message.{AgentRecord}
use open_acn.Aea.Config.{Config, Os, init}
use open_acn.Por.Crypto.{Crypto}
use open_acn.Por.Signing.{Keys}
use open_acn.Node.Settings.{Formats, PeerSettings, ClientSettings}
use open_acn.Node.PeerOptions
use open_acn.Node.PeerOptions.{
  PeerOption, local_uri, public_uri, enable_relay_service, enable_delegate_service,
  enable_prometheus_monitoring, with_registration_delay, store_records_to, enable_mailbox_service,
  configure_peer,
}
use open_acn.Node.ClientOptions
use open_acn.Node.ClientOptions.{ClientOption, configure_client}

-- What `main` does with a delay: the test for zero, and the conversion to `time.Duration`, which
-- drops the part after the point.
pub record Delays (F : Type 0) : Type 0 where
  pub is_zero : F → Bool
  pub whole : F → ℕ

-- An error makes `check` panic.
abbrev pub check {ℓ} : {A : Type ℓ} → Result A → Result A
check (ok a) = ok a
check (err e) = panic
check panic = panic

abbrev pub only_if : {A : Type 0} → Bool → A → List A
only_if true a = a ∷ []
only_if false a = []

module _ (c : Crypto) (k : Keys c) where
  pub data NodeSettings : Type 0 where
    client : ClientSettings c k → NodeSettings
    peer : PeerSettings c k → NodeSettings

  module _ {F : Type 0} (f : Formats) (delays : Delays F) where
    abbrev pub client_record : Option AgentRecord → List (ClientOption c k)
    client_record none = []
    client_record (some r) = ClientOptions.register_agent_address c k r ∷ []

    abbrev pub client_options : Config F → List (ClientOption c k)
    client_options agent =
        ClientOptions.identity_from_fetchai_key c k agent.id
        ∷ ClientOptions.bootstrap_from c k f agent.entry_peers
        ∷ client_record agent.agent_record

    abbrev pub peer_record : Option AgentRecord → List (PeerOption c k)
    peer_record none = []
    peer_record (some r) = PeerOptions.register_agent_address c k r ∷ []

    -- `durationSeconds*1000000*time.Microsecond`, in nanoseconds, as an int64
    abbrev pub delay_of : F → ℕ
    delay_of delay = delays.whole delay * 1000000 * 1000 % 2 ^ 64

    abbrev pub extra_options : Config F → List (PeerOption c k)
    extra_options agent =
        only_if (not (agent.port_monitoring == 0))
          (enable_prometheus_monitoring c k agent.port_monitoring)
        ++ (only_if (not (delays.is_zero agent.registration_delay))
              (with_registration_delay c k (delay_of agent.registration_delay))
            ++ (only_if (not (agent.records_storage_path =ˢ ""))
                  (store_records_to c k agent.records_storage_path)
                ++ only_if (not (agent.mailbox_uri =ˢ ""))
                    (enable_mailbox_service c k agent.mailbox_uri)))

    abbrev pub peer_options : Config F → List (PeerOption c k)
    peer_options agent =
        local_uri c k f agent.host agent.port
        ∷ public_uri c k f agent.host_public agent.port_public
        ∷ PeerOptions.identity_from_fetchai_key c k agent.id
        ∷ enable_relay_service c k
        ∷ enable_delegate_service c k agent.port_delegate
        ∷ PeerOptions.bootstrap_from c k f agent.entry_peers
        ∷ (peer_record agent.agent_record ++ extra_options agent)

    abbrev pub as_client : Config F → Result NodeSettings
    as_client agent = do s ← configure_client c k (client_options agent); ok (client s)

    abbrev pub as_peer : Config F → Result NodeSettings
    as_peer agent = do s ← configure_peer c k (peer_options agent); ok (peer s)

    unfoldable pub configure_node : Config F → Result NodeSettings
    configure_node agent = if agent.port_public == 0 then as_client agent else as_peer agent

    abbrev pub with_agent : Result (Unit {0}) × Config F → Result NodeSettings
    with_agent (ok _, agent) = check (configure_node agent)
    with_agent (err e, agent) = panic
    with_agent (panic, agent) = panic

    unfoldable pub main : Os F → Config F → Result NodeSettings
    main os agent = with_agent (init os agent)
