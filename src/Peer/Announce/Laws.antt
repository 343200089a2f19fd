-- ===== src/Peer/Announce/Laws.antt =====
-- What announcing addresses does to the state of the peer.
use mathlib.Core.List.{Memᴰ}
use mathlib.Core.Path.{subst}
use open_acn.Base.{
  ◌||◌, eq_refl, eq_refl, ◌||◌, String, ◌≡◌, ◌∙◌, ap, sym, refl, Bool, true, false, Except, done,
  fail, ok, err, panic, Result, Exec, and_then, lift, ◌>>=◌, if◌then◌else◌, arith, ◌=ˢ◌, Bool-cases,
  inl, inr, ◌⊎◌, Err, eq_iff,
}
use open_acn.Base.GoMap.{has, lookup-insert}
use open_acn.Acn.Protocol.{ignore}
use open_acn.Peer.State.{
  Cid, DhtPeer, Environment, Provided, provided, deadline_exceeded, provide_failed,
}
use open_acn.Peer.Announce.{
  is_address_announced, set_address_announced, register_agent_address, announce, provide_result,
  call_provide, called, called-announced, provide-state,
}

-- The second state, with what the first one says of announcements.
abbrev pub with_announced : DhtPeer → DhtPeer → DhtPeer
with_announced t s = record s {
  address_announced_map = t.address_announced_map;
  provide_calls = t.provide_calls;
}

-- `dht.Provide` was called for the address, or its cid cannot be computed.
abbrev pub IsProvided : Environment → String → DhtPeer → Type 0
IsProvided env addr s =
    ((e : Err) × (env.compute_cid addr ≡ fail e))
    ⊎ ((cid : Cid) × (env.compute_cid addr ≡ done cid) × Memᴰ cid s.provide_calls)

-- Every address that is marked as announced was provided.
abbrev pub AllProvided : Environment → DhtPeer → Type 0
AllProvided env s = (b : String) → is_address_announced b s ≡ true → IsProvided env b s

-- The action announces addresses, and changes nothing else: it marks them, and provides what it marks.
pub record Announces (env : Environment) {A : Type 0} (m : Exec DhtPeer A) : Type 0 where
  pub keeps :
      (s : DhtPeer) (b : String)
      → is_address_announced b s ≡ true
      → is_address_announced b (m s).1 ≡ true
  pub only : (s : DhtPeer) → (m s).1 ≡ with_announced (m s).1 s
  pub provides : (s : DhtPeer) → AllProvided env s → AllProvided env (m s).1

module _ {env : Environment} where
  pub pure-Announces : {A : Type 0} (x : Result A) → Announces env (λ s. (x, s))
  pure-Announces x = record { keeps = λ s b h. h; only = λ s. refl; provides = λ s h. h }

  pub ignore-Announces :
      {A : Type 0} (m : Exec DhtPeer A) → Announces env m → Announces env (ignore m)
  ignore-Announces {A} m h = record {
    keeps =
        λ s b k. subst (λ t. is_address_announced b t ≡ true) (sym (same (m s))) (h.keeps s b k);
    only = λ s. same (m s) ∙ h.only s ∙ ap (λ t. with_announced t s) (sym (same (m s)));
    provides = λ s k. subst (AllProvided env) (sym (same (m s))) (h.provides s k);
  }
    where
      same : (x : Result A × DhtPeer) → (ignore (λ _. x) x.1).1 ≡ x.1
      same (ok a, t) = refl
      same (err e, t) = refl
      same (panic, t) = refl

  pub bind-Announces :
      {A B : Type 0} (m : Exec DhtPeer A) (f : A → Exec DhtPeer B)
      → Announces env m
      → ((a : A) → Announces env (f a))
      → Announces env (m >>= f)
  bind-Announces {A} {B} m f h k = record {
    keeps = λ s b p. keeps_on b (m s) (h.keeps s b p);
    only = λ s. only_on s (m s) (h.only s);
    provides = λ s p. provides_on (m s) (h.provides s p);
  }
    where
      keeps_on :
          (b : String) (x : Result A × DhtPeer)
          → is_address_announced b x.1 ≡ true
          → is_address_announced b (and_then x f).1 ≡ true
      keeps_on b (ok a, t) p = (k a).keeps t b p
      keeps_on b (err e, t) p = p
      keeps_on b (panic, t) p = p

      provides_on :
          (x : Result A × DhtPeer) → AllProvided env x.1 → AllProvided env (and_then x f).1
      provides_on (ok a, t) p = (k a).provides t p
      provides_on (err e, t) p = p
      provides_on (panic, t) p = p

      only_on :
          (s : DhtPeer) (x : Result A × DhtPeer)
          → x.1 ≡ with_announced x.1 s
          → (and_then x f).1 ≡ with_announced (and_then x f).1 s
      only_on s (ok a, t) p = (k a).only t ∙ ap (with_announced (f a t).1) p
      only_on s (err e, t) p = p
      only_on s (panic, t) p = p

module _ (env : Environment) (addr : String) where
  -- The state of a peer that announced the address.
  abbrev announced_state : DhtPeer → DhtPeer
  announced_state s = called env (env.compute_cid addr) (set_address_announced addr s)

  register-state :
      (s : DhtPeer)
      → (register_agent_address env addr s).1
        ≡ (if is_address_announced addr s then s else announced_state s)
  unfolding register_agent_address
  register-state s = go (is_address_announced addr s)
    where
      go : (b : Bool) → (announce env addr b s).1 ≡ (if b then s else announced_state s)
      go true = refl
      go false = provide-state env (env.compute_cid addr) (set_address_announced addr s)

  -- An announcement ends in success or in an error.
  pub ignore-register_agent_address :
      (s : DhtPeer)
      → ignore (register_agent_address env addr) s ≡ (ok tt, (register_agent_address env addr s).1)
  unfolding register_agent_address
  ignore-register_agent_address s = go (is_address_announced addr s)
    where
      provide :
          (q : Provided) (t : DhtPeer)
          → ignore (provide_result env q) t ≡ (ok tt, (provide_result env q t).1)
      provide provided t = refl
      provide deadline_exceeded t = refl
      provide (provide_failed e) t = refl

      cid_known :
          (c : Except Cid) (t : DhtPeer)
          → ignore (lift c >>= call_provide env) t ≡ (ok tt, ((lift c >>= call_provide env) t).1)
      cid_known (fail e) t = refl
      cid_known (done cid) t = provide (env.provide cid) (called env (done cid) t)

      go : (b : Bool) → ignore (announce env addr b) s ≡ (ok tt, (announce env addr b s).1)
      go true = refl
      go false = cid_known (env.compute_cid addr) (set_address_announced addr s)

  set_announced :
      (s : DhtPeer) (b : String)
      → is_address_announced b (set_address_announced addr s)
        ≡ (addr =ˢ b || is_address_announced b s)
  unfolding is_address_announced set_address_announced has
  set_announced s b = ground (arith, lookup-insert addr b true s.address_announced_map)

  announced_state_lem :
      (s : DhtPeer) (b : String)
      → is_address_announced b (announced_state s) ≡ (addr =ˢ b || is_address_announced b s)
  announced_state_lem s b =
      called-announced env (env.compute_cid addr) b (set_address_announced addr s)
      ∙ set_announced s b

  pub register_agent_address-announced :
      (s : DhtPeer) → is_address_announced addr (register_agent_address env addr s).1 ≡ true
  register_agent_address-announced s =
      rw (register-state s) (elim (Bool-cases (is_address_announced addr s)) [
        | inl p ↦ rw (p) p
        | inr p ↦ rw (p, announced_state_lem s addr, eq_refl) refl
      ])

  -- The address itself is provided by its announcement, and what was provided stays so.
  announced_state-IsProvided : (s : DhtPeer) → IsProvided env addr (announced_state s)
  announced_state-IsProvided s = go (env.compute_cid addr) refl
    where
      go :
          (c : Except Cid)
          → env.compute_cid addr ≡ c
          → IsProvided env addr (called env c (set_address_announced addr s))
      go (fail e) h = inl (e, h)
      go (done cid) h = inr (cid, h, Memᴰ.head refl)

  announced_state-IsProvided_still :
      (s : DhtPeer) (b : String) → IsProvided env b s → IsProvided env b (announced_state s)
  unfolding set_address_announced
  announced_state-IsProvided_still s b (inl h) = inl h
  announced_state-IsProvided_still s b (inr (cid, known, m)) =
      inr (cid, known, go (env.compute_cid addr))
    where
      go : (c : Except Cid) → Memᴰ cid (called env c (set_address_announced addr s)).provide_calls
      go (fail e) = m
      go (done x) = Memᴰ.tail m

  announced-provided : (s : DhtPeer) → AllProvided env s → AllProvided env (announced_state s)
  announced-provided s h b p = elim (Bool-cases (addr =ˢ b)) [
    | inl q ↦
        subst (λ a. IsProvided env a (announced_state s)) ((eq_iff addr b).0 q)
          (announced_state-IsProvided s)
    | inr q ↦
        announced_state-IsProvided_still s b (h b (ground (arith, announced_state_lem s b, p, q)))
  ]

  pub register-Announces : Announces env (register_agent_address env addr)
  unfolding set_address_announced
  register-Announces = record { keeps = keeps; only = only; provides = provides }
    where
      keeps :
          (s : DhtPeer) (b : String)
          → is_address_announced b s ≡ true
          → is_address_announced b (register_agent_address env addr s).1 ≡ true
      keeps s b h = rw (register-state s) (elim (Bool-cases (is_address_announced addr s)) [
        | inl p ↦ rw (p) h
        | inr p ↦ rw (p, announced_state_lem s b, h) (ground arith)
      ])

      provides :
          (s : DhtPeer) → AllProvided env s → AllProvided env (register_agent_address env addr s).1
      provides s h =
          subst (AllProvided env) (sym (register-state s)) (go (is_address_announced addr s))
        where
          go : (b : Bool) → AllProvided env (if b then s else announced_state s)
          go true = h
          go false = announced-provided s h

      changed : (s : DhtPeer) → announced_state s ≡ with_announced (announced_state s) s
      changed s = go (env.compute_cid addr)
        where
          go :
              (c : Except Cid)
              → called env c (set_address_announced addr s)
                ≡ with_announced (called env c (set_address_announced addr s)) s
          go (fail e) = refl
          go (done cid) = refl

      only :
          (s : DhtPeer)
          → (register_agent_address env addr s).1
            ≡ with_announced (register_agent_address env addr s).1 s
      only s =
          subst (λ t. t ≡ with_announced t s) (sym (register-state s))
            (go (is_address_announced addr s))
        where
          go :
              (b : Bool)
              → (if b then s else announced_state s)
                ≡ with_announced (if b then s else announced_state s) s
          go true = refl
          go false = changed s
