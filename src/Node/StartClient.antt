-- ===== src/Node/StartClient.antt =====
-- `New` of dht/dhtclient/dhtclient.go after the checks of its settings, and `Disconnected` of its
-- notifee, which keeps the connection to the relay.
pub mod Laws
use open_acn.Base.{
  String, ℕ, Bool, true, false, ◌||◌, Option, none, some, List, [], ◌∷◌, ◌++◌, length, Except, done,
  fail, Err, msg, Result, ok, err, Exec, pure, raise, lift, attempt, ◌>>=◌, ◌>>◌, if◌then◌else◌,
  ◌=ˢ◌, ◌==◌,
}
use open_acn.Base.Loop.{Loop, embed, endless}
use open_acn.Storage.{wrap}
use open_acn.Client.State.{DhtClient, register_agent_address}
use open_acn.Client.Dial.{bootstrap_loop}
use open_acn.Node.Addresses.{AddrInfo}
use open_acn.Node.Bootstrap.{Host}
use open_acn.Node.Close.{Resource, RunningClient, close_client}
use open_acn.Node.Start.{no_host, put_handler, aea_address_stream, aea_envelope_stream}

-- How the libraries' calls end: the attempts of `BootstrapConnect`, of which the retries are those
-- that begin before the timeout, and for each time that the addresses of the host are read before
-- the deadline, the codes of the protocols of each address.
pub record ClientSetup : Type 0 where
  pub create_host : Except (Unit {0})
  pub create_dht : Except (Unit {0})
  pub first : Except (Unit {0})
  pub retries : List (Except (Unit {0}))
  pub bootstrap_dht : Except (Unit {0})
  pub polls : List (List (List ℕ))
  pub circuit_code : ℕ
  pub close_error : Resource → Option Err

abbrev pub fresh_client : RunningClient
fresh_client = record { network = no_host; is_closed = false; released = [] }

-- `waitForCircuitAddress`: whether an address of a circuit is there in time.
module _ (code : ℕ) where
  unfoldable pub has_code : List ℕ → Bool
  has_code [] = false
  has_code (p ∷ ps) = p == code || has_code ps

  unfoldable pub has_circuit : List (List ℕ) → Bool
  has_circuit [] = false
  has_circuit (a ∷ addrs) = has_code a || has_circuit addrs

  unfoldable pub wait_for_circuit_address : List (List (List ℕ)) → Bool
  wait_for_circuit_address [] = false
  wait_for_circuit_address (addrs ∷ polls) = has_circuit addrs || wait_for_circuit_address polls

module _ {S : Type 0} (setup : ClientSetup) where
  abbrev pub update_client : (Host → Host) → Exec (RunningClient × S) (Unit {0})
  update_client f (r, s) = (ok tt, (record r { network = f r.network }, s))

  abbrev put_client : {A : Type 0} → S → Result A × RunningClient → Result A × (RunningClient × S)
  put_client s (a, r) = (a, (r, s))

  abbrev on_client : {A : Type 0} → Exec RunningClient A → Exec (RunningClient × S) A
  on_client m (r, s) = put_client s (m r)

  abbrev put_agent : {A : Type 0} → RunningClient → Result A × S → Result A × (RunningClient × S)
  put_agent r (a, s) = (a, (r, s))

  abbrev pub on_agent : {A : Type 0} → Exec S A → Exec (RunningClient × S) A
  on_agent m (r, s) = put_agent r (m s)

  abbrev pub client_closing_on : {A : Type 0} → Except A → Exec (RunningClient × S) A
  client_closing_on (fail e) = on_client (close_client setup.close_error) >> raise e
  client_closing_on (done a) = pure a

  abbrev pub or_close_client :
      {A : Type 0} → Exec (RunningClient × S) A → Exec (RunningClient × S) A
  or_close_client m = do r ← attempt m; client_closing_on r

  abbrev pub create_client_node :
      Except (Unit {0}) → Except (Unit {0}) → Exec (RunningClient × S) (Unit {0})
  create_client_node host dht = do
    lift host
    update_client (λ h. record h { running = true })
    lift dht
    update_client (λ h. record h { dht_running = true })

  abbrev pub circuit_found : Bool → Exec (RunningClient × S) (Unit {0})
  circuit_found true = pure tt
  circuit_found false = raise (
      wrap (msg "timed out waiting for /p2p-circuit address from auto-relay")
        "auto-relay reservation never completed")

  -- What follows the bootstrap, with the registration at the relay.
  abbrev pub ready_client :
      Except (Unit {0}) → Bool → Exec S (Unit {0}) → Exec (RunningClient × S) (Unit {0})
  ready_client dht circuit registration = do
    or_close_client (lift dht)
    or_close_client (circuit_found circuit)
    or_close_client (on_agent registration)
    update_client (put_handler aea_address_stream)
    update_client (put_handler aea_envelope_stream)

  -- Every attempt of the bootstrap adds the addresses of the same peers.
  abbrev pub bootstrapped :
      List AddrInfo
      → Option (Unit {0})
      → Exec (RunningClient × S) (Unit {0})
      → Loop (RunningClient × S) (Unit {0})
  bootstrapped peers none next = endless
  bootstrapped peers (some _) next =
      embed (update_client (λ h. record h { peerstore = h.peerstore ++ peers }) >> next)

  abbrev created_client :
      Result (Unit {0}) × (RunningClient × S)
      → Loop (RunningClient × S) (Unit {0})
      → Option (Result (Unit {0}) × (RunningClient × S))
  created_client (ok _, t) next = next t
  created_client (r, t) next = some (r, t)

  -- The set-up on the results of its steps.
  abbrev pub set_up_with :
      Except (Unit {0})
      → Except (Unit {0})
      → List AddrInfo
      → Option (Unit {0})
      → Except (Unit {0})
      → Bool
      → Exec S (Unit {0})
      → Loop (RunningClient × S) (Unit {0})
  set_up_with host dht peers boot refresh circuit registration t =
      created_client (create_client_node host dht t)
        (bootstrapped peers boot (ready_client refresh circuit registration))

  -- Rounds for all retries of the bootstrap are enough.
  unfoldable pub set_up_client : DhtClient S → List AddrInfo → Loop (RunningClient × S) (Unit {0})
  set_up_client client peers =
      set_up_with setup.create_host setup.create_dht peers
        (bootstrap_loop (length setup.retries) setup.retries setup.first) setup.bootstrap_dht
        (wait_for_circuit_address setup.circuit_code setup.polls) (register_agent_address client)

-- A round of the loop of `Disconnected`: the client is closing, or dials its relay.
pub data Round : Type 0 where
  closing : Round
  dialled : Except (Unit {0}) → Round

-- Whether the loop has ended after the rounds.
unfoldable pub reconnect_loop : List Round → Bool
reconnect_loop [] = false
reconnect_loop (closing ∷ rounds) = true
reconnect_loop (dialled (done _) ∷ rounds) = true
reconnect_loop (dialled (fail e) ∷ rounds) = reconnect_loop rounds

unfoldable pub disconnected : String → AddrInfo → List Round → Host → Bool × Host
disconnected remote_peer relay rounds h =
    if remote_peer =ˢ relay.id
    then (reconnect_loop rounds, record h { peerstore = h.peerstore ++ (relay ∷ []) })
    else (true, h)
