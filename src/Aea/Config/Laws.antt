-- ===== src/Aea/Config/Laws.antt =====
-- Which configurations `Init` accepts, and what it makes of them.
use mathlib.Core.Path.{subst}
use open_acn.Base.{
  Bool, true, false, ◌||◌, some, ◌≡◌, ◌≢◌, ◌⊎◌, inl, inr, refl, sym, ap, ok, ◌>>◌, if◌then◌else◌,
  ◌=ˢ◌,
}
use open_acn.Base.Decided.{Decided, bind-Decided}
use open_acn.Aea.Config.{
  Config, Os, check_agent, parse_services, with_public, with_delegate, parse_rest, parse_addresses,
  read_config, delay_of, configure, init,
}
use open_acn.Aea.Config.Text.{split}
use open_acn.Aea.Config.Accepts.{
  address_of, delay_text, HasDelay, or_zero, HasServices, Accepts, after_env, configured,
}
use open_acn.Aea.Config.Steps.{
  required-Decided, agent-Decided, optional_host_port-Decided, delay-Decided, loaded-Decided,
  parse_uri-Decided, then-Decided,
}

module _ {F : Type 0} (os : Os F) where
  open os use {getenv}

  parse_services-Decided :
      (s : Config F)
      → Decided (HasServices os) (parse_services os s) tt (record s {
        host_public = (address_of (getenv "AEA_P2P_URI_PUBLIC")).0;
        port_public = (address_of (getenv "AEA_P2P_URI_PUBLIC")).1;
        host_delegate = (address_of (getenv "AEA_P2P_DELEGATE_URI")).0;
        port_delegate = (address_of (getenv "AEA_P2P_DELEGATE_URI")).1;
        host_monitoring = (address_of (getenv "AEA_P2P_URI_MONITORING")).0;
        port_monitoring = (address_of (getenv "AEA_P2P_URI_MONITORING")).1;
      })
  parse_services-Decided s =
      bind-Decided (with_public os) (optional_host_port-Decided os (getenv "AEA_P2P_URI_PUBLIC") s)
        (bind-Decided (with_delegate os)
          (optional_host_port-Decided os (getenv "AEA_P2P_DELEGATE_URI") _)
          (then-Decided os (λ p t. record t { host_monitoring = p.0; port_monitoring = p.1 })
            (optional_host_port-Decided os (getenv "AEA_P2P_URI_MONITORING") _)))

  abbrev with_entries : Config F → Config F
  with_entries s = record s {
    entry_peers =
        if getenv "AEA_P2P_ENTRY_URIS" =ˢ ""
        then s.entry_peers
        else split b',' (getenv "AEA_P2P_ENTRY_URIS");
  }

  abbrev finished : Config F → Config F
  finished s = record s {
    registration_delay = (or_zero os) (delay_of os (delay_text os));
    pipe = if s.standalone then s.pipe else some (s.msgin_path, s.msgout_path);
  }

  parse_rest-Decided :
      (s : Config F) → Decided (HasDelay os) (parse_rest os s) tt (finished (with_entries s))
  parse_rest-Decided s =
      then-Decided os
        (λ d t. record t {
          registration_delay = d;
          pipe = if t.standalone then t.pipe else some (t.msgin_path, t.msgout_path);
        })
        (delay-Decided os (with_entries s))

  configure-Decided : (s : Config F) → Decided (Accepts os) (configure os s) tt (configured os s)
  configure-Decided s =
      bind-Decided (λ _. read_config os) (loaded-Decided os s)
        (bind-Decided (λ _. check_agent os >> parse_addresses os)
          (required-Decided os (after_env os s))
          (bind-Decided (λ _. parse_addresses os) (agent-Decided os (after_env os s))
            (bind-Decided (λ _. parse_services os >> parse_rest os) (parse_uri-Decided os _)
              (bind-Decided (λ _. parse_rest os) (parse_services-Decided _)
                (parse_rest-Decided _)))))

  -- A node that is neither connected nor in the sandbox accepts its configuration exactly when the
  -- file is loaded, the key and the uri of the node are given, the paths to the agent and the
  -- agent's address are all given or all left out, the uri of the node has a port and can be
  -- listened on, the uris of the services have a port where they are given, and the registration
  -- delay parses; the result is then the one configuration that the environment describes.
  pub init_lem :
      (s : Config F)
      → s.sandbox ≡ false
      → s.connected ≡ false
      → (Accepts os × (init os s ≡ (ok tt, configured os s)))
        ⊎ ((¬ Accepts os) × ((t : Config F) → init os s ≢ (ok tt, t)))
  unfolding init
  init_lem s box connected =
      subst
        (λ x.
          (Accepts os × (x ≡ (ok tt, configured os s)))
          ⊎ ((¬ Accepts os) × ((t : Config F) → x ≢ (ok tt, t))))
        (sym (runs (s.sandbox) (s.connected) box connected)) (ends (configure-Decided s))
    where
      runs :
          (a b : Bool)
          → a ≡ false
          → b ≡ false
          → (if a || b then (ok tt, s) else configure os s) ≡ configure os s
      runs true b p q = cc
      runs false true p q = cc
      runs false false p q = refl

      ends :
          Decided (Accepts os) (configure os s) tt (configured os s)
          → (Accepts os × (configure os s ≡ (ok tt, configured os s)))
            ⊎ ((¬ Accepts os) × ((t : Config F) → configure os s ≢ (ok tt, t)))
      ends (inl p) = inl p
      ends (inr (n, h)) = inr (n, λ t e. h tt (ap (λ y. y.0) e))
