-- ===== src/Aea/Config/Accepts.antt =====
-- The configurations that a node is meant to accept, and what they are read as.
use open_acn.Base.{
  String, ℕ, ◌≤◌, Bool, true, false, ◌&&◌, ◌||◌, some, List, ◌∷◌, Except, done, fail, ◌≡◌, ◌≢◌, ◌⊎◌,
  if◌then◌else◌, ◌=ˢ◌, length,
}
use open_acn.Aea.Config.{Config, Os, por_record, delay_of}
use open_acn.Aea.Config.Text.{split, parse_port}

-- A uri with a colon, and the host and the port in it.
abbrev pub HasPort : String → Type 0
HasPort uri = 2 ≤ length (split b':' uri)

abbrev pub address_in : List String → String × ℕ
address_in (host ∷ port ∷ rest) = (host, parse_port port)
address_in _ = ("", 0)

abbrev pub address_of : String → String × ℕ
address_of uri = address_in (split b':' uri)

-- A uri that may be left out.
abbrev pub PortOrNone : String → Type 0
PortOrNone uri = (uri ≡ "") ⊎ HasPort uri

-- The paths to the agent and its address are all left out, or all given.
abbrev pub AllOrNone : String → String → String → Type 0
AllOrNone a b c = ((a ≡ "") × (b ≡ "") × (c ≡ "")) ⊎ ((a ≢ "") × (b ≢ "") × (c ≢ ""))

abbrev pub no_agent : String → String → String → Bool
no_agent a b c = (a =ˢ "") && (b =ˢ "") && (c =ˢ "")

module _ {F : Type 0} (os : Os F) where
  open os use {getenv}

  abbrev pub delay_text : String
  delay_text = getenv "AEA_P2P_CFG_REGISTRATION_DELAY"

  abbrev pub HasDelay : Type 0
  HasDelay = (delay_text ≡ "") ⊎ ((d : F) × (os.parse_float delay_text ≡ done d))

  abbrev pub or_zero : Except F → F
  or_zero (done d) = d
  or_zero (fail e) = os.zero_delay

  -- The uri of the node has a port and can be listened on.
  abbrev pub Listens : Type 0
  Listens =
      HasPort (getenv "AEA_P2P_URI")
      × ((os.resolve (getenv "AEA_P2P_URI") ≡ done tt)
          × (os.listen (getenv "AEA_P2P_URI") ≡ done tt))

  -- The uris of the services have ports, where they are given.
  abbrev pub HasServices : Type 0
  HasServices =
      PortOrNone (getenv "AEA_P2P_URI_PUBLIC")
      × (PortOrNone (getenv "AEA_P2P_DELEGATE_URI") × PortOrNone (getenv "AEA_P2P_URI_MONITORING"))

  abbrev pub Accepts : Type 0
  Accepts =
      (os.loaded ≡ true)
      × (((getenv "AEA_P2P_ID" ≢ "") × (getenv "AEA_P2P_URI" ≢ ""))
          × (AllOrNone (getenv "AEA_TO_NODE") (getenv "NODE_TO_AEA") (getenv "AEA_AGENT_ADDR")
              × (Listens × (HasServices × HasDelay))))

  abbrev pub after_env : Config F → Config F
  after_env s = record s {
    connected = false;
    msgin_path = getenv "AEA_TO_NODE";
    msgout_path = getenv "NODE_TO_AEA";
    agent_addr = getenv "AEA_AGENT_ADDR";
    id = getenv "AEA_P2P_ID";
    agent_record = por_record os s.agent_record;
    mailbox_uri = getenv "AEA_P2P_MAILBOX_URI";
    records_storage_path = getenv "AEA_P2P_CFG_STORAGE_PATH";
  }

  abbrev pub has_no_agent : Bool
  has_no_agent = no_agent (getenv "AEA_TO_NODE") (getenv "NODE_TO_AEA") (getenv "AEA_AGENT_ADDR")

  -- What an accepted configuration is.
  abbrev pub configured : Config F → Config F
  configured s = record (after_env s) {
    standalone = has_no_agent || s.standalone;
    host = (address_of (getenv "AEA_P2P_URI")).0;
    port = (address_of (getenv "AEA_P2P_URI")).1;
    host_public = (address_of (getenv "AEA_P2P_URI_PUBLIC")).0;
    port_public = (address_of (getenv "AEA_P2P_URI_PUBLIC")).1;
    host_delegate = (address_of (getenv "AEA_P2P_DELEGATE_URI")).0;
    port_delegate = (address_of (getenv "AEA_P2P_DELEGATE_URI")).1;
    host_monitoring = (address_of (getenv "AEA_P2P_URI_MONITORING")).0;
    port_monitoring = (address_of (getenv "AEA_P2P_URI_MONITORING")).1;
    entry_peers =
        if getenv "AEA_P2P_ENTRY_URIS" =ˢ ""
        then s.entry_peers
        else split b',' (getenv "AEA_P2P_ENTRY_URIS");
    registration_delay = or_zero (delay_of os delay_text);
    pipe =
        if has_no_agent || s.standalone
        then s.pipe
        else some (getenv "AEA_TO_NODE", getenv "NODE_TO_AEA");
  }
