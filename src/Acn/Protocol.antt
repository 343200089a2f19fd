-- ===== src/Acn/Protocol.antt =====
-- acn/utils.go over any pipe. Logging is left out.
pub mod Send
pub mod Receive
pub mod Exchange
pub mod Envelopes
pub mod Readers
pub mod Streams
pub mod Stable
use open_acn.Base.{
  String, Bool, Option, none, some, Except, Err, done, fail, Exec, pure, attempt, ◌>>=◌,
}
use open_acn.Acn.Message.{StatusCode, StatusBody}

-- `ACNError`
pub record AcnError : Type 0 where
  pub error_code : StatusCode
  pub cause : Err

-- `ignore(err)`: the error of an action is dropped.
abbrev pub ignore : {S A : Type 0} → Exec S A → Exec S (Unit {0})
ignore m = attempt m >>= λ _. pure tt

-- `AddAcnStatusMessage`, where the node keeps it in the state.
pub record StatusQueue (S : Type 0) : Type 0 where
  pub add_acn_status_message : StatusBody → String → Exec S (Unit {0})

-- What a `select` on a status channel and a timer gives: what the channel delivers (nil once it is
-- closed), or the timer.
pub data Received : Type 0 where
  arrived : Option StatusBody → Received
  timed_out : Received
