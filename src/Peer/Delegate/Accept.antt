-- ===== src/Peer/Delegate/Accept.antt =====
-- `TLSListener` of dht/dhtpeer/utils.go, and the loop of `handleDelegateService`, which accepts the
-- connections of delegate clients (dht/dhtpeer/dhtpeer.go). The loop ends with the events.
use open_acn.Base.{List, [], ◌∷◌, Except, done, fail, Result, ok, err, panic, All, ◌≡◌, refl}
use open_acn.Wire.Word.{Bytes}
use open_acn.Wire.Conn.{Conn}
use open_acn.Wire.Frame.{write_bytes_conn}

-- What the loop meets in a round: the peer is closing, or the listener's `Accept` ends.
pub data Event : Type 0 where
  closing : Event
  arrival : Except Conn → Event

-- A connection beside an error is not closed by anyone.
abbrev pub signed : Result (Unit {0}) × Conn → Result Conn
signed (ok _, con) = ok con
signed (err e, con) = err e
signed (panic, con) = panic

-- The signature of the session key is the first message to a client.
unfoldable pub accept : Bytes → Except Conn → Result Conn
accept signature (fail e) = err e
accept signature (done con) = signed (write_bytes_conn signature con)

-- An error is logged; a panic would end the loop.
abbrev pub also : Result Conn → List Conn → List Conn
also (ok con) conns = con ∷ conns
also (err e) conns = conns
also panic conns = []

-- The connections that are given to `handleNewDelegationConnection`.
unfoldable pub handle_delegate_service : Bytes → List Event → List Conn
handle_delegate_service signature [] = []
handle_delegate_service signature (closing ∷ events) = []
handle_delegate_service signature (arrival x ∷ events) =
    also (accept signature x) (handle_delegate_service signature events)

module _ (signature : Bytes) where
  -- The signature was written on the connection.
  abbrev IsSigned : Conn → Type 0
  IsSigned con = (before : Conn) × (write_bytes_conn signature before ≡ (ok tt, con))

  also-IsSigned :
      (x : Except Conn) (conns : List Conn)
      → All IsSigned conns
      → All IsSigned (also (accept signature x) conns)
  unfolding accept
  also-IsSigned (fail e) conns h = h
  also-IsSigned (done con) conns h = go (write_bytes_conn signature con) refl
    where
      go :
          (y : Result (Unit {0}) × Conn)
          → write_bytes_conn signature con ≡ y
          → All IsSigned (also (signed y) conns)
      go (ok _, d) p = ((con, p), h)
      go (err e, d) p = h
      go (panic, d) p = tt

  -- Every client that is handled was sent the signature first.
  pub handle_delegate_service-IsSigned :
      (events : List Event) → All IsSigned (handle_delegate_service signature events)
  unfolding handle_delegate_service
  handle_delegate_service-IsSigned [] = tt
  handle_delegate_service-IsSigned (closing ∷ events) = tt
  handle_delegate_service-IsSigned (arrival x ∷ events) =
      also-IsSigned x (handle_delegate_service signature events)
        (handle_delegate_service-IsSigned events)
