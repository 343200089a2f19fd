-- ===== src/Node/Main/Client.antt =====
-- The settings of a client that the configuration gives.
use mathlib.Core.Path.{subst}
use open_acn.Base.{
  String, Bool, true, false, Option, none, some, List, ◌∷◌, is_empty, Result, ok, err, msg, ◌≡◌,
  ◌≢◌, refl, inl, inr, if◌then◌else◌, ◌=ˢ◌, eq_iff, arith, Bool-cases,
}
use open_acn.Base.Pure.{◌>>◌, bind-eq-ok}
use open_acn.Acn.Message.{AgentRecord}
use open_acn.Aea.Config.{Config}
use open_acn.Por.Crypto.{Crypto}
use open_acn.Por.Signing.{Keys, key_pair_from_fetchai_key}
use open_acn.Node.Addresses.{AddrInfo, get_peers_addr_info}
use open_acn.Node.Settings.{Formats, ClientSettings, copy_record, check_record, client_failure}
use open_acn.Node.Checked.{Represented, check_record-Represented}
use open_acn.Node.ClientOptions.{
  ClientOption, apply_options, configure_client, new_settings, check_settings, check_own_record,
  check_entries, identity_from_fetchai_key, bootstrap_from,
}
use open_acn.Node.Main.{Delays, client_record, client_options}

module _ (c : Crypto) (k : Keys c) where
  -- What the checks show of the settings.
  checked :
      (pair : k.PrivKey × k.NodeKey) (address : String) (r : AgentRecord) (peers : List AddrInfo)
      → (if address =ˢ ""
          then err (msg "missing agent address")
          else check_own_record c k pair.1 (some r) peers)
        ≡ ok tt
      → (address ≢ "") × Represented c k pair.1 r × (is_empty peers ≡ false)
  checked pair address r peers e = elim (Bool-cases (address =ˢ "")) [
    | inl t ↦ absurd (failed (rw t at e))
    | inr n ↦
        let (u, valid, rest) =
          bind-eq-ok (check_record c k (client_failure c k) pair.1 r) (λ _. check_entries c k peers)
            (rw n at e) in
        (
          λ same. ground (arith, (eq_iff address "").1 same),
          check_record-Represented c k (client_failure c k) pair.1 r valid,
          entered (is_empty peers) rest,
        )
  ]
    where
      failed : ◌≡◌ {A = Result (Unit {0})} (err (msg "missing agent address")) (ok tt) → ⊥
      failed p = cc

      entered :
          (b : Bool)
          → ◌≡◌ {A = Result (Unit {0})}
              (if b then err (msg "at least one boostrap peer should be provided") else ok tt)
              (ok tt)
          → b ≡ false
      entered true p = cc
      entered false p = refl

module _ (c : Crypto) (k : Keys c) {F : Type 0} (f : Formats) where
  -- A client with the key and the entry peers of the configuration, at least one, and a valid proof
  -- that it represents the agent of the configuration.
  pub record ClientOf (agent : Config F) (s : ClientSettings c k) : Type 0 where
    pub pair : k.PrivKey × k.NodeKey
    pub keys : key_pair_from_fetchai_key c k agent.id ≡ ok pair
    pub held : s.key_pair ≡ some pair
    pub peers : get_peers_addr_info f.addresses agent.entry_peers ≡ ok s.bootstrap_peers
    pub enters : is_empty s.bootstrap_peers ≡ false
    pub given : AgentRecord
    pub known : agent.agent_record ≡ some given
    pub address : s.my_agent_address ≡ given.address
    pub named : s.my_agent_address ≢ ""
    pub own : s.my_agent_record ≡ some (copy_record given)
    pub represented : Represented c k pair.1 (copy_record given)

  module _ (delays : Delays F) where
    abbrev from_entries : Config F → List (ClientOption c k)
    from_entries agent =
        bootstrap_from c k f agent.entry_peers ∷ client_record c k f delays agent.agent_record

    -- What the options that may fail have found.
    found :
        (agent : Config F) (s u : ClientSettings c k)
        → apply_options c k (client_options c k f delays agent) s ≡ ok u
        → (pair : k.PrivKey × k.NodeKey) × (peers : List AddrInfo) × (key_pair_from_fetchai_key c k
              agent.id
            ≡ ok pair)
          × (get_peers_addr_info f.addresses agent.entry_peers ≡ ok peers)
    found agent s u e =
        let (t, o1, e1) =
          bind-eq-ok (identity_from_fetchai_key c k agent.id s)
            (apply_options c k (from_entries agent)) e in
        let (t', o2, e2) =
          bind-eq-ok (bootstrap_from c k f agent.entry_peers t)
            (apply_options c k (client_record c k f delays agent.agent_record)) e1 in
        let (pair, p, _) = bind-eq-ok (key_pair_from_fetchai_key c k agent.id) (with_key s) o1 in
        let (peers, l, _) =
          bind-eq-ok (get_peers_addr_info f.addresses agent.entry_peers) (with_peers t) o2 in
        (pair, peers, p, l)
      where
        with_key : ClientSettings c k → k.PrivKey × k.NodeKey → Result (ClientSettings c k)
        with_key t x = ok (record t { key_pair = some x })

        with_peers : ClientSettings c k → List AddrInfo → Result (ClientSettings c k)
        with_peers t x = ok (record t { bootstrap_peers = x })

    pub client-ClientOf :
        (agent : Config F) (s : ClientSettings c k)
        → configure_client c k (client_options c k f delays agent) ≡ ok s
        → ClientOf agent s
    unfolding configure_client check_settings
    client-ClientOf agent s e =
        let (t, opts, e1) =
          bind-eq-ok (apply_options c k (client_options c k f delays agent) (new_settings c k))
            (λ t. check_settings c k t >> ok t) e in
        let (pair, peers, p, l) = found agent (new_settings c k) t opts in
        go agent.agent_record refl pair peers p l
      where
        ok-inj : {x y : ClientSettings c k} → ok x ≡ ok y → x ≡ y
        ok-inj q = cc

        go :
            (o : Option AgentRecord)
            → agent.agent_record ≡ o
            → (pair : k.PrivKey × k.NodeKey) (peers : List AddrInfo)
            → key_pair_from_fetchai_key c k agent.id ≡ ok pair
            → get_peers_addr_info f.addresses agent.entry_peers ≡ ok peers
            → ClientOf agent s
        go none known pair peers p l = absurd (failed (rw (p, l, known) at e))
          where
            failed :
                ◌≡◌ {A = Result (ClientSettings c k)} (err (msg "missing agent address")) (ok s) → ⊥
            failed q = cc
        go (some r) known pair peers p l =
            let final : ClientSettings c k = record {
              key_pair = some pair;
              bootstrap_peers = peers;
              my_agent_address = r.address;
              my_agent_record = some (copy_record r);
            } in
            let (u, ch, same) =
              bind-eq-ok (check_settings c k final) (λ _. ok final) (rw (p, l, known) at e) in
            let (named, valid, entered) = checked c k pair r.address (copy_record r) peers ch in
            subst (ClientOf agent) (ok-inj same) (record {
              pair = pair;
              keys = p;
              held = refl;
              peers = l;
              enters = entered;
              given = r;
              known = known;
              address = refl;
              named = named;
              own = refl;
              represented = valid;
            })
