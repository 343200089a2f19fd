-- ===== src/Aea/Config/Steps.antt =====
-- The steps of `Init`, each with the condition under which it goes on.
use open_acn.Base.{
  String, ◌≤◌, Bool, true, false, ◌||◌, List, [], ◌∷◌, Except, done, fail, ◌≡◌, ◌≢◌, ◌⊎◌, inl, inr,
  refl, sym, ap, Result, ok, err, panic, and_then, lift, if◌then◌else◌, ◌=ˢ◌, length, Bool-cases,
  eq_iff, arith,
}
use open_acn.Base.Decided.{Decided, bind-Decided}
use open_acn.Aea.Config.{
  Config, Os, host_port_of, host_port, optional_host_port, load_env, check_required, check_agent,
  put_local, listen_on, parse_uri, delay_of,
}
use open_acn.Aea.Config.Text.{split}
use open_acn.Aea.Config.Accepts.{
  HasPort, address_in, address_of, PortOrNone, AllOrNone, no_agent, delay_text, HasDelay, or_zero,
  Listens,
}

abbrev Blank : String → Type 0
Blank t = ((t ≡ "") × ((t =ˢ "") ≡ true)) ⊎ ((t ≢ "") × ((t =ˢ "") ≡ false))

Blank-cases : (t : String) → Blank t
Blank-cases t = elim (Bool-cases (t =ˢ "")) [
  | inl e ↦ inl ((eq_iff t "").0 e, e)
  | inr e ↦ inr (λ p. ground (arith, (eq_iff t "").1 p), e)
]

module _ {F : Type 0} (os : Os F) where
  open os use {getenv}

  pub required-Decided :
      (s : Config F)
      → Decided ((s.id ≢ "") × (getenv "AEA_P2P_URI" ≢ "")) (check_required os s) tt s
  required-Decided s = go (Blank-cases s.id) (Blank-cases (getenv "AEA_P2P_URI"))
    where
      go :
          Blank s.id
          → Blank (getenv "AEA_P2P_URI")
          → Decided ((s.id ≢ "") × (getenv "AEA_P2P_URI" ≢ "")) (check_required os s) tt s
      go (inl (p, e)) y = rw e (inr (λ h. h.0 p, λ b q. cc))
      go (inr (n, e)) (inl (p, d)) = rw (e, d) (inr (λ h. h.1 p, λ b q. cc))
      go (inr (n, e)) (inr (m, d)) = rw (e, d) (inl ((n, m), refl))

  pub agent-Decided :
      (s : Config F)
      → Decided
          (AllOrNone s.msgin_path s.msgout_path s.agent_addr)
          (check_agent os s)
          tt
          (record s {
            standalone = no_agent s.msgin_path s.msgout_path s.agent_addr || s.standalone;
          })
  agent-Decided s =
      go (Blank-cases s.msgin_path) (Blank-cases s.msgout_path) (Blank-cases s.agent_addr)
    where
      go :
          Blank s.msgin_path
          → Blank s.msgout_path
          → Blank s.agent_addr
          → Decided
              (AllOrNone s.msgin_path s.msgout_path s.agent_addr)
              (check_agent os s)
              tt
              (record s {
                standalone = no_agent s.msgin_path s.msgout_path s.agent_addr || s.standalone;
              })
      go (inl (p, e)) (inl (q, d)) (inl (r, c)) = rw (e, d, c) (inl (inl (p, q, r), refl))
      go (inr (p, e)) (inr (q, d)) (inr (r, c)) = rw (e, d, c) (inl (inr (p, q, r), refl))
      go (inl (p, e)) (inr (q, d)) x =
          rw (e, d) (inr (λ h. elim h [ inl a ↦ q a.1 | inr a ↦ a.0 p ], λ b z. cc))
      go (inr (p, e)) (inl (q, d)) x =
          rw (e, d) (inr (λ h. elim h [ inl a ↦ p a.0 | inr a ↦ a.1 q ], λ b z. cc))
      go (inl (p, e)) (inl (q, d)) (inr (r, c)) =
          rw (e, d, c) (inr (λ h. elim h [ inl a ↦ r a.2 | inr a ↦ a.0 p ], λ b z. cc))
      go (inr (p, e)) (inr (q, d)) (inl (r, c)) =
          rw (e, d, c) (inr (λ h. elim h [ inl a ↦ p a.0 | inr a ↦ a.2 r ], λ b z. cc))

  pub host_port-Decided :
      (uri : String) (s : Config F)
      → Decided (HasPort uri) (lift (host_port uri) s) (address_of uri) s
  unfolding host_port
  host_port-Decided uri s = go (split b':' uri)
    where
      go :
          (parts : List String)
          → Decided (2 ≤ length parts) (lift (host_port_of uri parts) s) (address_in parts) s
      go [] = inr (λ h. absurd (omega arith), λ b e. cc)
      go (p ∷ []) = inr (λ h. absurd (omega arith), λ b e. cc)
      go (p ∷ q ∷ r) = inl (omega arith, refl)

  pub optional_host_port-Decided :
      (uri : String) (s : Config F)
      → Decided (PortOrNone uri) (lift (optional_host_port uri) s) (address_of uri) s
  unfolding split
  optional_host_port-Decided uri s = elim (Blank-cases uri) [
    | inl (p, e) ↦ rw e (inl (inl p, ap (λ u. (ok (address_of u), s)) (sym p)))
    | inr (n, e) ↦ rw e (given n (host_port-Decided uri s))
  ]
    where
      given :
          uri ≢ ""
          → Decided (HasPort uri) (lift (host_port uri) s) (address_of uri) s
          → Decided (PortOrNone uri) (lift (host_port uri) s) (address_of uri) s
      given n (inl (p, e)) = inl (inr p, e)
      given n (inr (m, e)) = inr (λ h. elim h [ inl a ↦ n a | inr a ↦ m a ], e)

  pub lift-Decided : (x : Except (Unit {0})) (s : Config F) → Decided (x ≡ done tt) (lift x s) tt s
  lift-Decided (done _) s = inl (refl, refl)
  lift-Decided (fail e) s = inr (λ p. cc, λ b p. cc)

  pub delay-Decided :
      (s : Config F)
      → Decided
          (HasDelay os)
          (lift (delay_of os (delay_text os)) s)
          ((or_zero os) (delay_of os (delay_text os)))
          s
  delay-Decided s = elim (Blank-cases (delay_text os)) [
    | inl (p, e) ↦ rw e (inl (inl p, refl))
    | inr (n, e) ↦ rw e (parsed n (os.parse_float (delay_text os)) refl)
  ]
    where
      parsed :
          (delay_text os) ≢ ""
          → (x : Except F) → os.parse_float (delay_text os) ≡ x
          → Decided (HasDelay os) (lift x s) ((or_zero os) x) s
      parsed n (done d) p = inl (inr (d, p), refl)
      parsed n (fail x) p = inr (λ h. elim h [ inl a ↦ n a | inr (d, a) ↦ cc ], λ b q. cc)

  pub loaded-Decided : (s : Config F) → Decided (os.loaded ≡ true) (load_env os s) tt s
  loaded-Decided s = go os.loaded
    where
      go : (b : Bool) → Decided (b ≡ true) (if b then (ok tt, s) else (panic, s)) tt s
      go true = inl (refl, refl)
      go false = inr (λ e. cc, λ b e. cc)

  pub parse_uri-Decided :
      (s : Config F)
      → Decided
          (Listens os)
          (parse_uri os s)
          tt
          (put_local os (address_of (getenv "AEA_P2P_URI")) s).1
  parse_uri-Decided s = bind-Decided (listen_on os) (host_port-Decided uri s) (
      bind-Decided (λ _. lift (os.listen uri)) (lift-Decided (os.resolve uri) _)
        (lift-Decided (os.listen uri) _))
    where
      uri : String
      uri = getenv "AEA_P2P_URI"

  pub then-Decided :
      {A P : Type 0} {x : Result A × Config F} {a : A} {t : Config F} (f : A → Config F → Config F)
      → Decided P x a t
      → Decided P (and_then x (λ p s. (ok tt, f p s))) tt (f a t)
  then-Decided f (inl (p, e)) = inl (p, ap (λ y. and_then y (λ q s. (ok tt, f q s))) e)
  then-Decided {A} {P} {x} f (inr (n, e)) = inr (n, stops x e)
    where
      stops :
          (y : Result A × Config F)
          → ((c : A) → y.0 ≢ ok c)
          → (c : Unit {0}) → (and_then y (λ q s. (ok tt, f q s))).0 ≢ ok c
      stops (ok v, w) h c q = absurd (h v refl)
      stops (err y, w) h c q = cc
      stops (panic, w) h c q = cc
