-- ===== src/Aea/Config.antt =====
-- The configuration of a node: `Init` of aea/api.go, and what it reads from the environment.
pub mod Text
pub mod Accepts
pub mod Steps
pub mod Laws
use open_acn.Base.{
  String, ℕ, Bool, true, false, ◌&&◌, ◌||◌, not, Option, none, some, List, [], ◌∷◌, Except, done,
  fail, msg, Result, ok, panic, Exec, pure, raise, crash, lift, ◌>>=◌, ◌>>◌, if◌then◌else◌, ◌=ˢ◌,
}
use open_acn.Acn.Message.{AgentRecord, ◌+ˢ◌}
use open_acn.Aea.Config.Text.{split, parse_port}

-- The fields of `AeaApi` that `Init` reads and sets; `F` is Go's float64. The pipe is made from the
-- paths of its ends.
pub record Config (F : Type 0) : Type 0 where
  pub msgin_path : String
  pub msgout_path : String
  pub agent_addr : String
  pub agent_record : Option AgentRecord
  pub id : String
  pub entry_peers : List String
  pub host : String
  pub port : ℕ
  pub host_public : String
  pub port_public : ℕ
  pub host_delegate : String
  pub port_delegate : ℕ
  pub host_monitoring : String
  pub port_monitoring : ℕ
  pub mailbox_uri : String
  pub registration_delay : F
  pub records_storage_path : String
  pub pipe : Option (String × String)
  pub connected : Bool
  pub sandbox : Bool
  pub standalone : Bool

-- The environment after the file is loaded, and the libraries of Go.
pub record Os (F : Type 0) : Type 0 where
  -- whether `godotenv.Overload` reads the file
  pub loaded : Bool
  pub getenv : String → String
  -- `net.ResolveTCPAddr`, and `net.ListenTCP` on the address
  pub resolve : String → Except (Unit {0})
  pub listen : String → Except (Unit {0})
  pub zero_delay : F
  -- `strconv.ParseFloat(s, 32)`
  pub parse_float : String → Except F

-- The host and the port of a uri; what does not parse as a port gives 0, and a port that is too
-- large 65535, since the error of `ParseUint` is dropped.
abbrev pub host_port_of : String → List String → Except (String × ℕ)
host_port_of uri (host ∷ port ∷ rest) = done (host, parse_port port)
host_port_of uri parts = fail (msg ("malformed Uri " +ˢ uri))

unfoldable pub host_port : String → Except (String × ℕ)
host_port uri = host_port_of uri (split b':' uri)

-- A uri that may be left out.
abbrev pub optional_host_port : String → Except (String × ℕ)
optional_host_port uri = if uri =ˢ "" then done ("", 0) else host_port uri

module _ {F : Type 0} (os : Os F) where
  abbrev pub por_record : Option AgentRecord → Option AgentRecord
  por_record before =
      if os.getenv "AEA_P2P_POR_ADDRESS" =ˢ ""
      then before
      else some (record {
        service_id = os.getenv "AEA_P2P_POR_SERVICE_ID";
        ledger_id = os.getenv "AEA_P2P_POR_LEDGER_ID";
        address = os.getenv "AEA_P2P_POR_ADDRESS";
        public_key = os.getenv "AEA_P2P_POR_PUBKEY";
        peer_public_key = os.getenv "AEA_P2P_POR_PEER_PUBKEY";
        signature = os.getenv "AEA_P2P_POR_SIGNATURE";
        not_before = "";
        not_after = "";
      })

  -- `log.Fatal` ends the process.
  abbrev pub load_env : Exec (Config F) (Unit {0})
  load_env s = if os.loaded then (ok tt, s) else (panic, s)

  abbrev pub read_env : Exec (Config F) (Unit {0})
  read_env s = (
    ok tt,
    record s {
      connected = false;
      msgin_path = os.getenv "AEA_TO_NODE";
      msgout_path = os.getenv "NODE_TO_AEA";
      agent_addr = os.getenv "AEA_AGENT_ADDR";
      id = os.getenv "AEA_P2P_ID";
      agent_record = por_record s.agent_record;
      mailbox_uri = os.getenv "AEA_P2P_MAILBOX_URI";
      records_storage_path = os.getenv "AEA_P2P_CFG_STORAGE_PATH";
    },
  )

  abbrev pub check_required : Exec (Config F) (Unit {0})
  check_required s =
      if (s.id =ˢ "") || (os.getenv "AEA_P2P_URI" =ˢ "")
      then raise (msg "couldn't get AEA configuration: key and uri are required") s
      else (ok tt, s)

  abbrev pub check_agent : Exec (Config F) (Unit {0})
  check_agent s =
      if (s.msgin_path =ˢ "") && (s.msgout_path =ˢ "") && (s.agent_addr =ˢ "")
      then (ok tt, record s { standalone = true })
      else if (s.msgin_path =ˢ "") || (s.msgout_path =ˢ "") || (s.agent_addr =ˢ "")
      then raise
          (msg
            "couldn't get AEA configuration: pipes paths are required when agent address is provided")
          s
      else (ok tt, s)

  abbrev pub put_local : String × ℕ → Exec (Config F) (Unit {0})
  put_local (host, port) s = (ok tt, record s { host = host; port = port })

  -- The address is listened on for a moment.
  abbrev pub listen_on : String × ℕ → Exec (Config F) (Unit {0})
  listen_on local_uri = do
    put_local local_uri
    lift (os.resolve (os.getenv "AEA_P2P_URI"))
    lift (os.listen (os.getenv "AEA_P2P_URI"))

  abbrev pub parse_uri : Exec (Config F) (Unit {0})
  parse_uri = do local_uri ← lift (host_port (os.getenv "AEA_P2P_URI")); listen_on local_uri

  abbrev pub put_public : String × ℕ → Exec (Config F) (Unit {0})
  put_public (host, port) s = (ok tt, record s { host_public = host; port_public = port })

  abbrev pub put_delegate : String × ℕ → Exec (Config F) (Unit {0})
  put_delegate (host, port) s = (ok tt, record s { host_delegate = host; port_delegate = port })

  abbrev pub put_monitoring : String × ℕ → Exec (Config F) (Unit {0})
  put_monitoring (host, port) s =
      (ok tt, record s { host_monitoring = host; port_monitoring = port })

  abbrev pub with_delegate : String × ℕ → Exec (Config F) (Unit {0})
  with_delegate delegate = do
    put_delegate delegate
    monitoring ← lift (optional_host_port (os.getenv "AEA_P2P_URI_MONITORING"))
    put_monitoring monitoring

  abbrev pub with_public : String × ℕ → Exec (Config F) (Unit {0})
  with_public public = do
    put_public public
    delegate ← lift (optional_host_port (os.getenv "AEA_P2P_DELEGATE_URI"))
    with_delegate delegate

  abbrev pub parse_services : Exec (Config F) (Unit {0})
  parse_services = do
    public ← lift (optional_host_port (os.getenv "AEA_P2P_URI_PUBLIC"))
    with_public public

  abbrev pub put_entry_peers : Exec (Config F) (Unit {0})
  put_entry_peers s = (
    ok tt,
    record s {
      entry_peers =
          if os.getenv "AEA_P2P_ENTRY_URIS" =ˢ ""
          then s.entry_peers
          else split b',' (os.getenv "AEA_P2P_ENTRY_URIS");
    },
  )

  abbrev pub delay_of : String → Except F
  delay_of text = if text =ˢ "" then done os.zero_delay else os.parse_float text

  abbrev pub put_delay : F → Exec (Config F) (Unit {0})
  put_delay delay s = (ok tt, record s { registration_delay = delay })

  abbrev pub set_up_pipe : Exec (Config F) (Unit {0})
  set_up_pipe s = (
    ok tt,
    record s { pipe = if s.standalone then s.pipe else some (s.msgin_path, s.msgout_path) },
  )

  abbrev pub with_delay : F → Exec (Config F) (Unit {0})
  with_delay delay = do put_delay delay; set_up_pipe

  abbrev pub parse_rest : Exec (Config F) (Unit {0})
  parse_rest = do
    put_entry_peers
    delay ← lift (delay_of (os.getenv "AEA_P2P_CFG_REGISTRATION_DELAY"))
    with_delay delay

  abbrev pub parse_addresses : Exec (Config F) (Unit {0})
  parse_addresses = do parse_uri; parse_services; parse_rest

  abbrev pub read_config : Exec (Config F) (Unit {0})
  read_config = do read_env; check_required; check_agent; parse_addresses

  abbrev pub configure : Exec (Config F) (Unit {0})
  configure = do load_env; read_config

  unfoldable pub init : Exec (Config F) (Unit {0})
  init s = if s.sandbox || s.connected then (ok tt, s) else configure s
