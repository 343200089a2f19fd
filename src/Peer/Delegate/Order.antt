-- ===== src/Peer/Delegate/Order.antt =====
-- The channel of a pair as a queue: envelopes are given to `RouteEnvelope` in the order in which
-- they came from the delegate clients.
use open_acn.Base.{
  String, ◌≡◌, ap, sym, refl, ◌∙◌, Bool, true, false, Option, none, some, List, [], ◌∷◌, ◌++◌,
  append-nil, append_assoc, length, leb, if◌then◌else◌, ◌=ˢ◌, eq_iff,
}
use open_acn.Base.GoMap.{GoMap, lookup, insert, lookup-insert}
use open_acn.Acn.Message.{Envelope}
use open_acn.Peer.State.{DhtPeer}
use open_acn.Peer.Delegate.{pair_of, channel, offer, queue_envelope, receive_pair, taken}

-- What the connections and the goroutines of the pairs do to the channels.
pub data PairEvent : Type 0 where
  queued : Envelope → PairEvent
  received : String → PairEvent

abbrev pub step_pair : PairEvent → DhtPeer → DhtPeer
step_pair (queued e) s = queue_envelope e s
step_pair (received pair) s = (receive_pair pair s).1

abbrev pub after_pairs : List PairEvent → DhtPeer → DhtPeer
after_pairs [] s = s
after_pairs (event ∷ events) s = after_pairs events (step_pair event s)

-- What the channel of a pair holds.
abbrev pub held : String → DhtPeer → List Envelope
held pair s = channel (lookup pair s.sync_messages)

abbrev pub in_room : Envelope → List Envelope → List Envelope
in_room e queue = if leb 1000 (length queue) then [] else e ∷ []

-- What an event puts into the channel of a pair, and what it takes from it.
abbrev pub put_in : String → PairEvent → DhtPeer → List Envelope
put_in pair (queued e) s = if pair_of e =ˢ pair then in_room e (held pair s) else []
put_in pair (received other) s = []

abbrev pub listed : Option Envelope → List Envelope
listed none = []
listed (some e) = e ∷ []

abbrev pub taken_out : String → PairEvent → DhtPeer → List Envelope
taken_out pair (queued e) s = []
taken_out pair (received other) s = if other =ˢ pair then listed (receive_pair other s).0 else []

-- The envelopes that the channel of a pair accepted, and those that were taken from it, in order.
abbrev pub accepted_by : String → List PairEvent → DhtPeer → List Envelope
accepted_by pair [] s = []
accepted_by pair (event ∷ events) s =
    put_in pair event s ++ accepted_by pair events (step_pair event s)

abbrev pub routed_from : String → List PairEvent → DhtPeer → List Envelope
routed_from pair [] s = []
routed_from pair (event ∷ events) s =
    taken_out pair event s ++ routed_from pair events (step_pair event s)

held-insert :
    (k pair : String) (queue : List Envelope) (m : GoMap (List Envelope))
    → channel (lookup pair (insert k queue m))
      ≡ (if k =ˢ pair then queue else channel (lookup pair m))
held-insert k pair queue m = rw (lookup-insert k pair queue m) (go (k =ˢ pair))
  where
    go :
        (b : Bool)
        → channel (if b then some queue else lookup pair m)
          ≡ (if b then queue else channel (lookup pair m))
    go true = refl
    go false = refl

offer_lem : (e : Envelope) (queue : List Envelope) → offer e queue ≡ queue ++ in_room e queue
offer_lem e queue = go (leb 1000 (length queue))
  where
    go : (b : Bool) → (if b then queue else queue ++ (e ∷ [])) ≡ queue ++ (if b then [] else e ∷ [])
    go true = sym (append-nil queue)
    go false = refl

queued_lem :
    (pair : String) (e : Envelope) (s : DhtPeer)
    → held pair s ++ put_in pair (queued e) s ≡ held pair (queue_envelope e s)
unfolding queue_envelope
queued_lem pair e s =
    go (pair_of e =ˢ pair) refl
    ∙ sym (held-insert (pair_of e) pair (offer e (held (pair_of e) s)) s.sync_messages)
  where
    go :
        (b : Bool)
        → (pair_of e =ˢ pair) ≡ b
        → held pair s ++ (if b then in_room e (held pair s) else [])
          ≡ (if b then offer e (held (pair_of e) s) else held pair s)
    go true p =
        sym (offer_lem e (held pair s))
        ∙ ap (λ x. offer e (held x s)) (sym ((eq_iff (pair_of e) pair).0 p))
    go false p = append-nil (held pair s)

received_lem :
    (pair other : String) (s : DhtPeer)
    → held pair s ≡ taken_out pair (received other) s ++ held pair (receive_pair other s).1
unfolding receive_pair
received_lem pair other s = go (lookup other s.sync_messages) refl
  where
    idle : (b : Bool) → held pair s ≡ (if b then [] else []) ++ held pair s
    idle true = refl
    idle false = refl

    first :
        (b : Bool) (e : Envelope) (queue : List Envelope)
        → (other =ˢ pair) ≡ b
        → lookup other s.sync_messages ≡ some (e ∷ queue)
        → held pair s ≡ (if b then e ∷ [] else []) ++ (if b then queue else held pair s)
    first true e queue q p = ap (λ x. held x s) (sym ((eq_iff other pair).0 q)) ∙ ap channel p
    first false e queue q p = refl

    go :
        (o : Option (List Envelope))
        → lookup other s.sync_messages ≡ o
        → held pair s
          ≡ (if other =ˢ pair then listed (taken other o s).0 else [])
            ++ held pair (taken other o s).1
    go none p = idle (other =ˢ pair)
    go (some []) p = idle (other =ˢ pair)
    go (some (e ∷ queue)) p =
        first (other =ˢ pair) e queue refl p
        ∙ ap (λ x. (if other =ˢ pair then e ∷ [] else []) ++ x)
            (sym (held-insert other pair queue s.sync_messages))

step_lem :
    (pair : String) (event : PairEvent) (s : DhtPeer)
    → held pair s ++ put_in pair event s ≡ taken_out pair event s ++ held pair (step_pair event s)
step_lem pair (queued e) s = queued_lem pair e s
step_lem pair (received other) s = append-nil (held pair s) ∙ received_lem pair other s

-- Over any sequence of envelopes that come from delegate clients and are taken to be routed, what the
-- channel of a pair held and then accepted is what was taken from it and then what it holds, in order.
pub routed-accepted :
    (pair : String) (events : List PairEvent) (s : DhtPeer)
    → held pair s ++ accepted_by pair events s
      ≡ routed_from pair events s ++ held pair (after_pairs events s)
routed-accepted pair [] s = append-nil (held pair s)
routed-accepted pair (event ∷ events) s =
    sym (
      append_assoc (held pair s) (put_in pair event s)
        (accepted_by pair events (step_pair event s)))
    ∙ ap (λ x. x ++ accepted_by pair events (step_pair event s)) (step_lem pair event s)
    ∙ append_assoc (taken_out pair event s) (held pair (step_pair event s))
        (accepted_by pair events (step_pair event s))
    ∙ ap (λ x. taken_out pair event s ++ x) (routed-accepted pair events (step_pair event s))
    ∙ sym (
        append_assoc (taken_out pair event s) (routed_from pair events (step_pair event s))
          (held pair (after_pairs events (step_pair event s))))
