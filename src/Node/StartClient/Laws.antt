-- ===== src/Node/StartClient/Laws.antt =====
-- How the set-up of a client ends.
use mathlib.Core.List.{Memᴰ}
use mathlib.Core.Path.{subst}
use open_acn.Base.{
  Bool, true, false, Option, none, some, List, [], ◌∷◌, length, Except, done, fail, Result, ok, err,
  panic, Exec, ◌≡◌, ◌⊎◌, inl, inr, refl, arith, ℕ, ◌==◌, Bool-cases,
}
use open_acn.Client.State.{DhtClient, register_agent_address}
use open_acn.Client.Dial.{bootstrap_loop, first_success, loop_until_timeout_lem}
use open_acn.Node.Addresses.{AddrInfo}
use open_acn.Node.Close.{RunningClient, close_client}
use open_acn.Node.Start.{aea_address_stream, aea_envelope_stream}
use open_acn.Node.StartClient.{
  ClientSetup, fresh_client, has_code, has_circuit, wait_for_circuit_address, set_up_with,
  set_up_client,
}

-- One of the times that the addresses were read before the deadline, one of them was an address with
-- the protocol of a circuit.
pub record CircuitSeen (code : ℕ) (polls : List (List (List ℕ))) : Type 0 where
  pub addrs : List (List ℕ)
  pub codes : List ℕ
  pub read : Memᴰ addrs polls
  pub listed : Memᴰ codes addrs
  pub circuit : Memᴰ code codes

module _ (code : ℕ) where
  has_code-Mem : (codes : List ℕ) → has_code code codes ≡ true → Memᴰ code codes
  unfolding has_code
  has_code-Mem [] h = cc
  has_code-Mem (p ∷ ps) h = elim (Bool-cases (p == code)) [
    | inl q ↦ Memᴰ.head (ground (arith, q))
    | inr q ↦ Memᴰ.tail (has_code-Mem ps (ground (arith, q, h)))
  ]

  has_circuit-Mem :
      (addrs : List (List ℕ))
      → has_circuit code addrs ≡ true
      → (codes : List ℕ) × Memᴰ codes addrs × Memᴰ code codes
  unfolding has_circuit
  has_circuit-Mem [] h = cc
  has_circuit-Mem (a ∷ addrs) h = elim (Bool-cases (has_code code a)) [
    | inl q ↦ (a, Memᴰ.head refl, has_code-Mem a q)
    | inr q ↦
        let (codes, listed, circuit) = has_circuit-Mem addrs (ground (arith, q, h)) in
        (codes, Memᴰ.tail listed, circuit)
  ]

  wait_for_circuit_address-CircuitSeen :
      (polls : List (List (List ℕ)))
      → wait_for_circuit_address code polls ≡ true
      → CircuitSeen code polls
  unfolding wait_for_circuit_address
  wait_for_circuit_address-CircuitSeen [] h = cc
  wait_for_circuit_address-CircuitSeen (addrs ∷ polls) h =
      elim (Bool-cases (has_circuit code addrs)) [
        | inl q ↦
            let (codes, listed, circuit) = has_circuit-Mem addrs q in
            record {
              addrs = addrs;
              codes = codes;
              read = Memᴰ.head refl;
              listed = listed;
              circuit = circuit;
            }
        | inr q ↦
            let seen = wait_for_circuit_address-CircuitSeen polls (ground (arith, q, h)) in
            record {
              addrs = seen.addrs;
              codes = seen.codes;
              read = Memᴰ.tail seen.read;
              listed = seen.listed;
              circuit = seen.circuit;
            }
      ]

module _ {S : Type 0} (setup : ClientSetup) (s : S) where
  -- What each end of the set-up says, on the results of its steps.
  abbrev pub Ended :
      Except (Unit {0})
      → List AddrInfo
      → Option (Unit {0})
      → List (List (List ℕ))
      → Result (Unit {0}) × S
      → Option (Result (Unit {0}) × (RunningClient × S))
      → Type 0
  Ended dht peers boot polls registered none = boot ≡ none
  Ended dht peers boot polls registered (some (ok _, (r, u))) =
      (boot ≡ some tt)
      × CircuitSeen setup.circuit_code polls
      × (registered ≡ (ok tt, u))
      × (r ≡ record {
        network = record {
          peerstore = peers;
          running = true;
          dht_running = true;
          stream_handlers = aea_address_stream ∷ aea_envelope_stream ∷ [];
          notified = [];
        };
        is_closed = false;
        released = [];
      })
  Ended dht peers boot polls registered (some (err e, (r, u))) =
      (r.network.running ≡ false) ⊎ (dht ≡ fail e)
  Ended dht peers boot polls registered (some (panic, (r, u))) = registered ≡ (panic, u)

  registered_last :
      (peers : List AddrInfo) (polls : List (List (List ℕ))) (x : Result (Unit {0}) × S)
      → CircuitSeen setup.circuit_code polls
      → Ended (done tt) peers (some tt) polls x (
          set_up_with setup
            (done tt)
            (done tt)
            peers
            (some tt)
            (done tt)
            true
            (λ _. x)
            (fresh_client, s))
  unfolding close_client
  registered_last peers polls (ok _, u) seen = (refl, seen, refl, refl)
  registered_last peers polls (err e, u) seen = inl refl
  registered_last peers polls (panic, u) seen = refl

  ended :
      (host dht : Except (Unit {0})) (peers : List AddrInfo) (boot : Option (Unit {0}))
      (refresh : Except (Unit {0})) (polls : List (List (List ℕ))) (circuit : Bool)
      (m : Exec S (Unit {0}))
      → (circuit ≡ true → CircuitSeen setup.circuit_code polls)
      → Ended dht peers boot polls
          (m s)
          (set_up_with setup host dht peers boot refresh circuit m (fresh_client, s))
  unfolding close_client
  ended (fail e) dht peers boot refresh polls circuit m seen = inl refl
  ended (done _) (fail e) peers boot refresh polls circuit m seen = inr refl
  ended (done _) (done _) peers none refresh polls circuit m seen = refl
  ended (done _) (done _) peers (some _) (fail e) polls circuit m seen = inl refl
  ended (done _) (done _) peers (some _) (done _) polls false m seen = inl refl
  ended (done _) (done _) peers (some _) (done _) polls true m seen =
      registered_last peers polls (m s) (seen refl)

  -- The set-up of a client goes on for ever only if no attempt of the bootstrap succeeds. If it gives a
  -- client, an attempt succeeded, one of the times that the addresses of the host were read before
  -- the deadline, one of them had the protocol code of a circuit, the agent is registered, and the
  -- host runs and handles lookups and envelopes. If it ends in an error, the host does not run, unless
  -- it is the error of the creation of the DHT. It panics only where the registration does.
  pub set_up_client-Ended :
      (client : DhtClient S) (peers : List AddrInfo)
      → Ended setup.create_dht peers
          (first_success (setup.first ∷ setup.retries))
          setup.polls
          (register_agent_address client s)
          (set_up_client setup client peers (fresh_client, s))
  unfolding set_up_client
  set_up_client-Ended client peers =
      subst
        (λ b.
          Ended setup.create_dht peers b setup.polls (register_agent_address client s)
            (set_up_client setup client peers (fresh_client, s)))
        (loop_until_timeout_lem "bootstrap connect timeout reached" setup.first setup.retries
          (length setup.retries) (omega arith))
        (ended setup.create_host setup.create_dht peers
          (bootstrap_loop (length setup.retries) setup.retries setup.first) setup.bootstrap_dht
          setup.polls (wait_for_circuit_address setup.circuit_code setup.polls)
          (register_agent_address client)
          (wait_for_circuit_address-CircuitSeen setup.circuit_code setup.polls))
