-- ===== src/Client/Dial.antt =====
-- `newStreamLoopUntilTimeout` and the loop of `bootstrapLoopUntilTimeout`, and when they end.
use open_acn.Base.{
  String, Err, String, pure, Err, ℕ, zero, suc, ◌≤◌, ◌≡◌, refl, Option, none, some, List, [], ◌∷◌,
  length, Except, done, fail, msg, arith,
}
use open_acn.Base.Loop.{Loop, embed, endless, ◌>>◌}
use open_acn.Wire.Conn.{Conn}
use open_acn.Client.State.{StreamType, DhtClient, register_agent_address}

-- The loop on rounds, from the result of the last attempt: `none` when it has not ended by then. Once
-- the timeout is reached, each round only sets the error that the loop tests.
unfoldable pub loop_until_timeout :
    {A : Type 0} → String → ℕ → List (Except A) → Except A → Option A
loop_until_timeout text rounds retries (done a) = some a
loop_until_timeout text zero retries (fail e) = none
loop_until_timeout text (suc rounds) [] (fail e) =
    loop_until_timeout text rounds [] (fail (msg text))
loop_until_timeout text (suc rounds) (next ∷ retries) (fail e) =
    loop_until_timeout text rounds retries next

abbrev pub new_stream_loop : ℕ → List (Except Conn) → Except Conn → Option Conn
new_stream_loop = loop_until_timeout "new stream loop timeout reached"

-- The attempts of `BootstrapConnect`
abbrev pub bootstrap_loop : ℕ → List (Except (Unit {0})) → Except (Unit {0}) → Option (Unit {0})
bootstrap_loop = loop_until_timeout "bootstrap connect timeout reached"

-- The result of the first attempt that succeeds.
abbrev pub first_success : {A : Type 0} → List (Except A) → Option A
first_success [] = none
first_success (done a ∷ attempts) = some a
first_success (fail e ∷ attempts) = first_success attempts

timeout_goes_on :
    {A : Type 0} (text : String) (rounds : ℕ) (e : Err)
    → loop_until_timeout {A = A} text rounds [] (fail e) ≡ none
unfolding loop_until_timeout
timeout_goes_on text zero e = refl
timeout_goes_on text (suc rounds) e = timeout_goes_on text rounds (msg text)

-- With a round for each retry, and with any number of rounds more, the loop gives the result of the
-- first attempt that succeeds; when none of them does, it has not ended: it does not end by its
-- timeout.
pub loop_until_timeout_lem :
    {A : Type 0} (text : String) (attempt : Except A) (retries : List (Except A)) (rounds : ℕ)
    → length retries ≤ rounds
    → loop_until_timeout text rounds retries attempt ≡ first_success (attempt ∷ retries)
unfolding loop_until_timeout
loop_until_timeout_lem text (done a) retries rounds h = refl
loop_until_timeout_lem text (fail e) [] rounds h = timeout_goes_on text rounds e
loop_until_timeout_lem text (fail e) (next ∷ retries) zero h = absurd (omega (arith, h))
loop_until_timeout_lem text (fail e) (next ∷ retries) (suc rounds) h =
    loop_until_timeout_lem text next retries rounds (omega (arith, h))

module _ {S : Type 0} (client : DhtClient S) where
  -- After a failed attempt, the client registers with its relay again.
  abbrev pub reconnected : Except Conn → Conn → Loop S Conn
  reconnected (done _) c = embed (pure c)
  reconnected (fail e) c = embed (register_agent_address client) >> embed (pure c)

  abbrev pub opened : Except Conn → Option Conn → Loop S Conn
  opened first none = endless
  opened first (some c) = reconnected first c

  -- Rounds for all retries are enough, by the lemma above.
  unfoldable pub new_stream_loop_until_timeout : String → StreamType → Loop S Conn
  new_stream_loop_until_timeout peer_id stream_type =
      opened (client.dials peer_id stream_type).first (
        new_stream_loop (length (client.dials peer_id stream_type).retries)
          (client.dials peer_id stream_type).retries (client.dials peer_id stream_type).first)
