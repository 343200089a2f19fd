-- ===== src/Aea/Api.antt =====
-- The queues of `AeaApi` between the agent's socket and the node: `Put`, `Get`, `Connect`, `Stop`, and
-- the rounds of `listenForEnvelopes` and `envelopeSendLoop` (aea/api.go).
pub mod Laws
use open_acn.Base.{
  err, String, ℕ, Bool, true, false, not, ◌||◌, Option, none, some, List, [], ◌∷◌, ◌++◌, length,
  leb, Except, done, fail, Err, msg, pipe_error, Result, ok, Exec, pure, raise, crash, deref,
  attempt, ◌>>=◌, ◌>>◌, if◌then◌else◌, ◌=ˢ◌,
}
use open_acn.Wire.Conn.{Conn}
use open_acn.Wire.Frame.{socket_read, socket_write}
use open_acn.Wire.Pipe.{Pipe}
use open_acn.Acn.Message.{AgentRecord, StatusBody, AcnMessage, Envelope}
use open_acn.Acn.Codec.{Codec}
use open_acn.Acn.Protocol.{StatusQueue, Received, arrived, timed_out}
use open_acn.Aea.Handle.{handle_acn_message_from_pipe, send_envelope}

abbrev pub out_queue_size : ℕ
out_queue_size = 100

abbrev pub send_queue_size : ℕ
send_queue_size = 100

abbrev pub acn_status_chan_size : ℕ
acn_status_chan_size = 1000

-- The fields that change, and those that the handlers read. A nil envelope in the send queue ends the
-- loop. `queues_closed` tells that `Stop` closed the two queues.
pub record AeaApi : Type 0 where
  pub agent_addr : String
  pub agent_record : Option AgentRecord
  pub standalone : Bool
  pub connected : Bool
  pub closing : Bool
  pub queues_closed : Bool
  pub pipe : Conn
  pub out_queue : List Envelope
  pub send_queue : List (Option Envelope)
  pub acn_status_chan : List StatusBody
  -- the status that the listener waits to put into a full channel
  pub waiting : Option StatusBody

-- How a step on a channel ends: it is done, or it waits, and a wait changes nothing.
pub data Step : Type 0 where
  stepped waits : Step

-- How a round of a loop ends.
pub data RoundEnd : Type 0 where
  goes_on returns : RoundEnd
  -- the queue to read is empty, or `Stop` waits for room for its nil
  idle stopping : RoundEnd
  -- the listener holds an envelope for which the queue has no room
  holds : Envelope → RoundEnd

abbrev put_pipe : {A : Type 0} → AeaApi → Result A × Conn → Result A × AeaApi
put_pipe s (r, c) = (r, record s { pipe = c })

abbrev pub on_pipe : {A : Type 0} → Exec Conn A → Exec AeaApi A
on_pipe m s = put_pipe s (m s.pipe)

abbrev pub api_pipe : Pipe AeaApi
api_pipe = record { read = on_pipe socket_read; write = λ b. on_pipe (socket_write b) }

unfoldable pub is_connected : AeaApi → Bool
is_connected s = s.connected || s.standalone

-- A send on the queue: on a closed channel it panics, on a full one it waits.
abbrev pub send_on_queue : Option Envelope → Exec AeaApi Step
send_on_queue envelope s =
    if s.queues_closed
    then crash s
    else if leb send_queue_size (length s.send_queue)
    then (ok waits, s)
    else (ok stepped, record s { send_queue = s.send_queue ++ (envelope ∷ []) })

unfoldable pub put_envelope : Envelope → Exec AeaApi Step
put_envelope envelope s =
    if s.standalone
    then raise (msg "node running in standalone mode") s
    else send_on_queue (some envelope) s

-- A closed queue that is empty gives nil at once.
abbrev pub take_out : Bool → List Envelope → AeaApi → (Step × Option Envelope) × AeaApi
take_out closed (envelope ∷ rest) s = ((stepped, some envelope), record s { out_queue = rest })
take_out true [] s = ((stepped, none), s)
take_out false [] s = ((waits, none), s)

unfoldable pub get_envelope : AeaApi → (Step × Option Envelope) × AeaApi
get_envelope s =
    if s.standalone then ((stepped, none), s) else take_out s.queues_closed s.out_queue s

-- What follows once the nil is in the queue. Closing the pipe is left out.
abbrev pub stopped : Step → Exec AeaApi Step
stopped waits s = (ok waits, s)
stopped stepped s = (ok stepped, record s { closing = true; queues_closed = true })

unfoldable pub stop : Exec AeaApi Step
stop = do step ← send_on_queue none; stopped step

-- `aea.pipe.Connect()` gives an error or opens the pipe; the loops are then started.
abbrev pub after_pipe : Except Conn → Exec AeaApi (Unit {0})
after_pipe (fail e) s = (err e, s)
after_pipe (done c) s = (
  ok tt,
  record s {
    pipe = c;
    closing = false;
    queues_closed = false;
    out_queue = [];
    send_queue = [];
    connected = true;
  },
)

unfoldable pub connect : Except Conn → Exec AeaApi (Unit {0})
connect opened s = if s.standalone then (ok tt, s) else after_pipe opened s

abbrev pub put_status : StatusBody → AeaApi → AeaApi
put_status status s =
    if leb acn_status_chan_size (length s.acn_status_chan)
    then record s { waiting = some status }
    else record s { acn_status_chan = s.acn_status_chan ++ (status ∷ []); waiting = none }

unfoldable pub add_acn_status_message : StatusBody → String → Exec AeaApi (Unit {0})
add_acn_status_message status counterparty_id s = (ok tt, put_status status s)

abbrev pub api_status_queue : StatusQueue AeaApi
api_status_queue = record { add_acn_status_message = add_acn_status_message }

-- `errors.As(err, &e)` with a `*common.PipeError`
abbrev pub is_pipe_error : Err → Bool
is_pipe_error (pipe_error e) = true
is_pipe_error _ = false

-- A send on the queue of the node. `Stop` may have closed it.
abbrev pub emit : Envelope → Exec AeaApi RoundEnd
emit envel s =
    if s.queues_closed
    then crash s
    else if leb out_queue_size (length s.out_queue)
    then (ok (holds envel), s)
    else (
      ok (if s.closing then returns else goes_on),
      record s { out_queue = s.out_queue ++ (envel ∷ []) },
    )

abbrev pub stop_ended : Step → RoundEnd
stop_ended waits = stopping
stop_ended stepped = returns

abbrev pub pipe_failed : Exec AeaApi RoundEnd
pipe_failed s = if s.closing then (ok returns, s) else (stop >>= λ step. pure (stop_ended step)) s

abbrev pub from_agent : Envelope → Exec AeaApi RoundEnd
from_agent envel s =
    (deref s.agent_record >>= λ r. if envel.sender =ˢ r.address then emit envel else pure goes_on) s

abbrev pub heard : Except (Option Envelope) → Exec AeaApi RoundEnd
heard (fail e) = if is_pipe_error e then pipe_failed else pure goes_on
heard (done none) = pure goes_on
heard (done (some envel)) = from_agent envel

module _ (messages : Codec AcnMessage) (envelopes : Codec Envelope) where
  -- A status that waits is tried again before the next message is read.
  abbrev pub next_message : Option StatusBody → Exec AeaApi RoundEnd
  next_message (some status) = add_acn_status_message status "" >> pure goes_on
  next_message none = do
    addr ← (λ s. (ok s.agent_addr, s))
    r ← attempt (handle_acn_message_from_pipe messages envelopes api_pipe api_status_queue addr)
    heard r

  -- One round of `listenForEnvelopes`, from the envelope that it holds.
  unfoldable pub listen_round : Option Envelope → Exec AeaApi RoundEnd
  listen_round (some envel) s = emit envel s
  listen_round none s = next_message s.waiting s

  -- The select of `WaitForStatus` on the status channel; `late` is what comes when it is empty.
  abbrev pub take_status : Received → List StatusBody → Exec AeaApi Received
  take_status late [] s = (ok late, s)
  take_status late (b ∷ rest) s = (ok (arrived (some b)), record s { acn_status_chan = rest })

  abbrev pub select_status : Received → Exec AeaApi Received
  select_status late s = take_status late s.acn_status_chan s

  -- The error of a send is logged.
  abbrev pub send_from : Received → List (Option Envelope) → Exec AeaApi RoundEnd
  send_from late [] s = (ok (if s.queues_closed then returns else idle), s)
  send_from late (none ∷ rest) s = (ok returns, record s { send_queue = rest })
  send_from late (some envelope ∷ rest) s =
      (attempt (send_envelope messages envelopes api_pipe (select_status late) envelope) >>= λ r.
      λ t. (ok (if t.closing then returns else goes_on), t))
        (record s { send_queue = rest })

  -- One round of `envelopeSendLoop`.
  unfoldable pub send_round : Received → Exec AeaApi RoundEnd
  send_round late s = send_from late s.send_queue s
