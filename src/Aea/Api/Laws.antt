-- ===== src/Aea/Api/Laws.antt =====
-- What the listener puts into the queue of the node, and a second `Stop`.
use open_acn.Base.{
  String, if_both, ◌≡◌, ◌⊎◌, inl, inr, ap, sym, refl, ◌∙◌, Bool, true, false, Option, none, some,
  [], ◌∷◌, ◌++◌, length, leb, Except, done, fail, Result, ok, err, panic, Exec, and_then, pure,
  deref, attempt, ◌>>=◌, if◌then◌else◌, ◌=ˢ◌, eq_iff,
}
use open_acn.Base.Stable.{Stable, attempt-Stable}
use open_acn.Acn.Message.{AgentRecord, StatusBody, AcnMessage, Envelope}
use open_acn.Acn.Codec.{Codec}
use open_acn.Aea.Handle.{handle_acn_message_from_pipe}
use open_acn.Aea.Handle.Stable.{handle_acn_message_from_pipe-Stable}
use open_acn.Wire.Conn.{Conn}
use open_acn.Wire.Frame.{socket_read, socket_write}
use open_acn.Aea.Api.{
  AeaApi, RoundEnd, Step, stepped, waits, goes_on, returns, holds, on_pipe, api_pipe, stopped, stop,
  stop_ended, add_acn_status_message, api_status_queue, is_pipe_error, emit, pipe_failed,
  from_agent, heard, next_message, listen_round,
}

-- Either the queue of the node is as before, or one envelope was appended, which had room and has the
-- address of the agent's record as its sender.
abbrev pub Emitted : AeaApi → AeaApi → Type 0
Emitted s u =
    (u.out_queue ≡ s.out_queue)
    ⊎ ((e : Envelope) × (r : AgentRecord) × (s.agent_record ≡ some r)
        × (e.sender ≡ r.address)
        × (leb 100 (length s.out_queue) ≡ false)
        × (u.out_queue ≡ s.out_queue ++ (e ∷ [])))

-- The queue and the record of the state that a round begins with.
abbrev SameAs : AeaApi → AeaApi → Type 0
SameAs s t = (t.out_queue ≡ s.out_queue) × (t.agent_record ≡ s.agent_record)

pipe-SameAs : (s : AeaApi) {A : Type 0} (m : Exec Conn A) → Stable (SameAs s) (on_pipe m)
pipe-SameAs s m = record { stable = λ t h. h }

status-SameAs :
    (s : AeaApi) (b : StatusBody) (id : String) → Stable (SameAs s) (add_acn_status_message b id)
unfolding add_acn_status_message
status-SameAs s b id = record {
  stable = λ t h. if_both (SameAs s) (leb 1000 (length t.acn_status_chan)) _ _ h h;
}

stop_queue : (t : AeaApi) → (stop t).1.out_queue ≡ t.out_queue
unfolding stop
stop_queue t = go t.queues_closed (leb 100 (length t.send_queue))
  where
    go :
        (a b : Bool)
        → (((λ s.
                if a
                then (panic, s)
                else if b
                then (ok waits, s)
                else (ok stepped, record s { send_queue = s.send_queue ++ (none ∷ []) }))
              >>= stopped)
            t).1.out_queue
          ≡ t.out_queue
    go true b = refl
    go false true = refl
    go false false = refl

failed_queue : (t : AeaApi) → (pipe_failed t).1.out_queue ≡ t.out_queue
failed_queue t = go t.closing
  where
    ended : (x : Result Step × AeaApi) → (and_then x (λ step. pure (stop_ended step))).1 ≡ x.1
    ended (ok a, u) = refl
    ended (err e, u) = refl
    ended (panic, u) = refl

    go :
        (b : Bool)
        → ((if b then (ok returns, t) else (stop >>= λ step. pure (stop_ended step)) t)).1.out_queue
          ≡ t.out_queue
    go true = refl
    go false = ap (λ u. u.out_queue) (ended (stop t)) ∙ stop_queue t

emit-Emitted :
    (e : Envelope) (r : AgentRecord) (s t : AeaApi)
    → SameAs s t
    → s.agent_record ≡ some r
    → e.sender ≡ r.address
    → Emitted s (emit e t).1
emit-Emitted e r s t (queue, agent) known same =
    go t.queues_closed (leb 100 (length t.out_queue)) refl
  where
    go :
        (a b : Bool)
        → leb 100 (length t.out_queue) ≡ b
        → Emitted s
            (if◌then◌else◌ {A = Result RoundEnd × AeaApi} a
              (panic, t)
              (if◌then◌else◌ {A = Result RoundEnd × AeaApi} b
                (ok (holds e), t)
                (
                  ok (if t.closing then returns else goes_on),
                  record t { out_queue = t.out_queue ++ (e ∷ []) },
                ))).1
    go true b p = inl queue
    go false true p = inl queue
    go false false p = inr (
      e,
      r,
      known,
      same,
      ap (λ q. leb 100 (length q)) (sym queue) ∙ p,
      ap (λ q. q ++ (e ∷ [])) queue,
    )

from_agent-Emitted : (e : Envelope) (s t : AeaApi) → SameAs s t → Emitted s (from_agent e t).1
from_agent-Emitted e s t h = go t.agent_record refl
  where
    matched :
        (r : AgentRecord) (b : Bool)
        → t.agent_record ≡ some r
        → (e.sender =ˢ r.address) ≡ b
        → Emitted s ((if b then emit e else pure goes_on) t).1
    matched r true p q = emit-Emitted e r s t h (sym h.1 ∙ p) ((eq_iff e.sender r.address).0 q)
    matched r false p q = inl h.0

    go :
        (o : Option AgentRecord)
        → t.agent_record ≡ o
        → Emitted s ((deref o >>= λ r. if e.sender =ˢ r.address then emit e else pure goes_on) t).1
    go none p = inl h.0
    go (some r) p = matched r (e.sender =ˢ r.address) p refl

heard-Emitted : (x : Except (Option Envelope)) (s t : AeaApi) → SameAs s t → Emitted s (heard x t).1
heard-Emitted (fail e) s t h = go (is_pipe_error e)
  where
    go : (b : Bool) → Emitted s ((if b then pipe_failed else pure goes_on) t).1
    go true = inl (failed_queue t ∙ h.0)
    go false = inl h.0
heard-Emitted (done none) s t h = inl h.0
heard-Emitted (done (some e)) s t h = from_agent-Emitted e s t h

module _ (messages : Codec AcnMessage) (envelopes : Codec Envelope) where
  next_message-Emitted :
      (o : Option StatusBody) (s : AeaApi) → Emitted s (next_message messages envelopes o s).1
  unfolding add_acn_status_message
  next_message-Emitted (some b) s = inl ((status-SameAs s b "").stable s (refl, refl)).0
  next_message-Emitted none s =
      go (attempt message s)
        ((attempt-Stable (SameAs s) message message-SameAs).stable s (refl, refl))
    where
      message : Exec AeaApi (Option Envelope)
      message =
          handle_acn_message_from_pipe messages envelopes api_pipe api_status_queue s.agent_addr

      message-SameAs : Stable (SameAs s) message
      message-SameAs =
          handle_acn_message_from_pipe-Stable messages envelopes (SameAs s) api_pipe
            api_status_queue (λ b. pipe-SameAs s (socket_write b)) s.agent_addr
            (λ b. status-SameAs s b s.agent_addr) (pipe-SameAs s socket_read)

      go :
          (x : Result (Except (Option Envelope)) × AeaApi)
          → SameAs s x.1
          → Emitted s (and_then x heard).1
      go (ok r, t) h = heard-Emitted r s t h
      go (err e, t) h = inl h.0
      go (panic, t) h = inl h.0

  -- However a round of the listener ends that begins with no envelope in hand, the queue of the node
  -- is as before, or one envelope was appended, which had room among the 100 and has the address of
  -- the agent's record as its sender.
  pub listen_round-Emitted : (s : AeaApi) → Emitted s (listen_round messages envelopes none s).1
  unfolding listen_round
  listen_round-Emitted s = next_message-Emitted s.waiting s
