-- ===== src/Peer/Delegate/Register.antt =====
-- Which delegate clients are registered.
use mathlib.Core.Path.{subst}
use open_acn.Base.{
  String, ◌≡◌, ap, sym, refl, ◌∙◌, Bool, true, false, Option, none, some, [], ◌∷◌, Except, done,
  fail, Result, ok, err, panic, pure, attempt, from_result, ◌>>=◌, if◌then◌else◌, bind-eq-ok,
  attempt-eq-done, error_text,
}
use open_acn.Base.GoMap.{lookup, lookup-insert_self}
use open_acn.Wire.Word.{Bytes}
use open_acn.Acn.Message.{AgentRecord, register, message}
use open_acn.Acn.Protocol.{ignore}
use open_acn.Acn.Protocol.Send.{send_acn_error, send_acn_success}
use open_acn.Acn.Protocol.Receive.{read_agent_registration_message}
use open_acn.Acn.Protocol.Exchange.{read_agent_registration_message_iff}
use open_acn.Por.Check.{Verdict, is_verified, is_valid_proof_of_representation}
use open_acn.Peer.State.{ConnRef, DhtPeer, Environment}
use open_acn.Peer.Announce.{register_agent_address}
use open_acn.Peer.Announce.Laws.{register-Announces}
use open_acn.Peer.Delegate.{
  delegate_pipe, put_delegate, check_por, announce_delegate, announced_delegate,
  acknowledged_delegate, refused_delegate, checked_delegate, registering_delegate,
  register_delegate,
}

-- The address leads to this connection, with an empty channel of statuses, and to this record.
abbrev pub HasDelegate : String → ConnRef → AgentRecord → DhtPeer → Type 0
HasDelegate addr conn r s =
    (lookup addr s.tcp_addresses ≡ some conn)
    × (lookup addr s.acn_statuses ≡ some [])
    × (lookup addr s.agent_records ≡ some r)

-- The first message on the connection is a registration of the address, with a valid proof that this
-- peer represents it.
pub record DelegateOf (env : Environment) (conn : ConnRef) (addr : String) (s u : DhtPeer)
    : Type 0 where
  pub bytes : Bytes
  pub agent : AgentRecord
  pub verdict : Verdict
  pub read : ((delegate_pipe conn).read s).0 ≡ ok bytes
  pub decoded : env.messages.unmarshal bytes ≡ done (message (register (some agent)))
  pub proof :
      is_valid_proof_of_representation env.crypto agent agent.address env.own_public_key
      ≡ ok verdict
  pub verified : is_verified verdict ≡ true
  pub own : agent.address ≡ addr
  pub delegate : HasDelegate addr conn agent u

module _ (env : Environment) (conn : ConnRef) (addr : String) where
  put-HasDelegate :
      (r : AgentRecord) (s : DhtPeer) → HasDelegate r.address conn r (put_delegate conn r s)
  put-HasDelegate r s = (
    lookup-insert_self r.address conn s.tcp_addresses,
    lookup-insert_self r.address [] s.acn_statuses,
    lookup-insert_self r.address r s.agent_records,
  )

  announce_delegate-ok :
      (r : AgentRecord) (b : Bool) (s u : DhtPeer)
      → announce_delegate env conn r.address b s ≡ (ok (some addr), u)
      → HasDelegate r.address conn r s
      → (r.address ≡ addr) × HasDelegate r.address conn r u
  announce_delegate-ok r false s u h d =
      (cc, subst (HasDelegate r.address conn r) (ap (λ x. x.1) h) d)
  announce_delegate-ok r true s u h d =
      let (x, t, p, q) =
        bind-eq-ok (attempt (register_agent_address env r.address))
          (announced_delegate env conn r.address) s u h in
      go x t p q
    where
      go :
          (x : Except (Unit {0})) (t : DhtPeer)
          → attempt (register_agent_address env r.address) s ≡ (ok x, t)
          → announced_delegate env conn r.address x t ≡ (ok (some addr), u)
          → (r.address ≡ addr) × HasDelegate r.address conn r u
      go (fail e) t p q = cc
      go (done _) t p q = (
        cc,
        subst (HasDelegate r.address conn r)
            (sym ((register-Announces env r.address).only s)
              ∙ ap (λ x. x.1) (attempt-eq-done (register_agent_address env r.address) s t p)
              ∙ ap (λ x. x.1) q)
            d,
      )

  module _ (s : DhtPeer) (b : Bytes) (read : ((delegate_pipe conn).read s).0 ≡ ok b)
      (r : AgentRecord)
      (decoded : env.messages.unmarshal b ≡ done (message (register (some r)))) where
    checked-DelegateOf :
        (v : Verdict) (t u : DhtPeer)
        → is_valid_proof_of_representation env.crypto r r.address env.own_public_key ≡ ok v
        → checked_delegate env conn r v t ≡ (ok (some addr), u)
        → DelegateOf env conn addr s u
    checked-DelegateOf v t u proof h = go (is_verified v) refl h
      where
        refused :
            (w : Verdict)
            → refused_delegate env conn w t ≡ (ok (some addr), u)
            → DelegateOf env conn addr s u
        refused (x, none) k = cc
        refused (x, some e) k =
            let (a, w, p, q) =
              bind-eq-ok
                (ignore
                  (send_acn_error env.messages (delegate_pipe conn) (error_text e) (x.code ∷ [])))
                (λ _. pure none) t u k in
            cc

        acked :
            (x : Except (Unit {0})) (w : DhtPeer)
            → is_verified v ≡ true
            → acknowledged_delegate env conn r x w ≡ (ok (some addr), u)
            → DelegateOf env conn addr s u
        acked (fail e) w p q = cc
        acked (done _) w p q =
            let (own, delegate) =
              announce_delegate-ok r w.enable_address_announcement (put_delegate conn r w) u q
                (put-HasDelegate r w) in
            record {
              bytes = b;
              agent = r;
              verdict = v;
              read = read;
              decoded = decoded;
              proof = proof;
              verified = p;
              own = own;
              delegate = subst (λ a. HasDelegate a conn r u) own delegate;
            }

        go :
            (x : Bool)
            → is_verified v ≡ x
            → (if x
                  then (attempt (send_acn_success env.messages (delegate_pipe conn))
                      >>= acknowledged_delegate env conn r)
                  else refused_delegate env conn v)
                t
              ≡ (ok (some addr), u)
            → DelegateOf env conn addr s u
        go false p k = refused v k
        go true p k =
            let (x, w, _, q) =
              bind-eq-ok (attempt (send_acn_success env.messages (delegate_pipe conn)))
                (acknowledged_delegate env conn r) t u k in
            acked x w p q

    proved-DelegateOf :
        (t u : DhtPeer)
        → registering_delegate env conn (done (some r)) t ≡ (ok (some addr), u)
        → DelegateOf env conn addr s u
    unfolding check_por
    proved-DelegateOf t u h =
        go (is_valid_proof_of_representation env.crypto r r.address env.own_public_key) refl h
      where
        go :
            (x : Result Verdict)
            → is_valid_proof_of_representation env.crypto r r.address env.own_public_key ≡ x
            → (from_result x >>= checked_delegate env conn r) t ≡ (ok (some addr), u)
            → DelegateOf env conn addr s u
        go (ok v) p k = checked-DelegateOf v t u p k
        go (err e) p k = cc
        go panic p k = cc

  -- A connection whose messages are read for an address began with the registration of it, by a
  -- record with a valid proof that this peer represents the agent; the address leads to that
  -- connection and has that record, and its channel of statuses is empty.
  pub register_delegate-DelegateOf :
      (s u : DhtPeer)
      → register_delegate env conn s ≡ (ok (some addr), u)
      → DelegateOf env conn addr s u
  unfolding register_delegate
  register_delegate-DelegateOf s u h =
      let (x, t, p, q) =
        bind-eq-ok (attempt (read_agent_registration_message env.messages (delegate_pipe conn)))
          (registering_delegate env conn) s u h in
      go x t p q
    where
      with_record :
          (o : Option AgentRecord) (t : DhtPeer) (b : Bytes)
          → ((delegate_pipe conn).read s).0 ≡ ok b
          → env.messages.unmarshal b ≡ done (message (register o))
          → registering_delegate env conn (done o) t ≡ (ok (some addr), u)
          → DelegateOf env conn addr s u
      with_record none t b read decoded q = cc
      with_record (some r) t b read decoded q = proved-DelegateOf s b read r decoded t u q

      go :
          (x : Except (Option AgentRecord)) (t : DhtPeer)
          → attempt (read_agent_registration_message env.messages (delegate_pipe conn)) s
            ≡ (ok x, t)
          → registering_delegate env conn x t ≡ (ok (some addr), u)
          → DelegateOf env conn addr s u
      go (fail e) t p q = cc
      go (done o) t p q =
          let (b, got, decoded) =
            (read_agent_registration_message_iff env.messages (delegate_pipe conn) o s t).0 (
              attempt-eq-done (read_agent_registration_message env.messages (delegate_pipe conn)) s
                t p) in
          with_record o t b (ap (λ y. y.0) got) decoded q
