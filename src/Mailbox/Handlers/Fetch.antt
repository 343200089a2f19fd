-- ===== src/Mailbox/Handlers/Fetch.antt =====
-- What a fetch from a mailbox gives, and what it leaves.
use open_acn.Base.{
  Bool, Exec, pure, [], ap, ◌∙◌, sym, ◌↔◌, ◌>>=◌, ◌>>◌, ◌⊎◌, inl, inr, String, true, false, not,
  Option, none, some, List, ◌∷◌, if◌then◌else◌, ◌=ˢ◌, ◌≡◌, arith, refl, Except, done, fail, Err,
  Result, ok, drop,
}
use open_acn.Base.GoMap.{lookup, lookup-insert_self}
use open_acn.Wire.Word.{Bytes}
use open_acn.Acn.Message.{Envelope}
use open_acn.Acn.Codec.{Codec}
use open_acn.Mailbox.State.{MailboxServer, queue_of, remove_first}
use open_acn.Mailbox.Handlers.{
  bad_request, Request, Response, nothing, bytes, respond, Server, api_get_envelope, no_response,
  modify, gets, deliver, in_session, session_of,
}

-- The session of a request.
abbrev pub HasSession : Request → String → String → MailboxServer → Type 0
HasSession req session_id addr m =
    (more : List String) × (lookup "Session-Id" req.header ≡ some (session_id ∷ more))
    × (lookup session_id m.sessions ≡ some addr)

module _ {P : Type 0} (p : P) (envelopes : Codec Envelope) (req : Request) where
  -- A fetch that gave the first envelope of the session's address, which left the queue.
  pub record Fetched (m : MailboxServer) (buf : Bytes) (t : Server P) : Type 0 where
    pub session_id : String
    pub addr : String
    pub envelope : Envelope
    pub rest : List Envelope
    pub is_get : (req.method =ˢ "GET") ≡ true
    pub session : HasSession req session_id addr m
    pub queue : queue_of addr m ≡ envelope ∷ rest
    pub encoded : envelopes.marshal envelope ≡ done buf
    pub removed : t ≡ (remove_first addr m, p)
    pub left : queue_of addr t.0 ≡ rest

  -- The answer of a fetch that gave those bytes.
  abbrev pub Gave : Bytes → Server P → Result Response × Server P → Type 0
  Gave buf t x = x ≡ (ok (respond 200 (bytes buf)), t)

  -- A fetch that gave nothing changed nothing.
  abbrev pub Kept : MailboxServer → Result Response × Server P → Type 0
  Kept m x = (x.1 ≡ (m, p)) ⊎ ((buf : Bytes) × Gave buf x.1 x)

  -- The parts of the handler, on what they test.
  abbrev encoded_envelope : String → Except Bytes → Option Err → Exec (Server P) Response
  encoded_envelope addr x w = elim x [
    | fail e ↦ pure no_response
    | done buf ↦ elim w [
      | some e ↦ pure (respond 200 nothing)
      | none ↦ modify (remove_first addr) >> pure (respond 200 (bytes buf))
    ]
  ]

  abbrev fetched : Option Err → String → String → Exec (Server P) Response
  fetched w session_id addr = do q ← gets (queue_of addr); deliver envelopes w addr q

  abbrev fetching : Option Err → String → Option String → Exec (Server P) Response
  fetching w session_id o =
      in_session (fetched w) (elim o [ none ↦ none | some a ↦ some (session_id, a) ])

  abbrev requested : Option Err → Bool → Option (List String) → Exec (Server P) Response
  requested w get header =
      if not get
      then bad_request "invalid method"
      else (session_of header >>= in_session (fetched w))

  queue-remove_first :
      (addr : String) (m : MailboxServer) (e : Envelope) (rest : List Envelope)
      → queue_of addr m ≡ e ∷ rest
      → queue_of addr (remove_first addr m) ≡ rest
  unfolding remove_first
  queue-remove_first addr m e rest queue =
      ground (arith, queue, lookup-insert_self addr (drop 1 (queue_of addr m)) m.envelopes)

  module _ (write_error : Option Err) (m : MailboxServer) where
    deliver-Kept :
        (addr : String) (q : List Envelope) → Kept m (deliver envelopes write_error addr q (m, p))
    deliver-Kept addr [] = inl refl
    deliver-Kept addr (e ∷ rest) = go (envelopes.marshal e) write_error
      where
        go : (x : Except Bytes) (w : Option Err) → Kept m (encoded_envelope addr x w (m, p))
        go (fail y) w = inl refl
        go (done buf) (some y) = inl refl
        go (done buf) none = inr (buf, refl)

    get-Kept : Kept m (api_get_envelope envelopes write_error req (m, p))
    unfolding api_get_envelope
    get-Kept = go (req.method =ˢ "GET") (lookup "Session-Id" req.header)
      where
        found : (id : String) (o : Option String) → Kept m (fetching write_error id o (m, p))
        found id none = inl refl
        found id (some addr) = deliver-Kept addr (queue_of addr m)

        go : (b : Bool) (o : Option (List String)) → Kept m (requested write_error b o (m, p))
        go false o = inl refl
        go true none = inl refl
        go true (some []) = inl refl
        go true (some (id ∷ more)) = found id (lookup id m.sessions)

    module _ (buf : Bytes) (t : Server P) where
      deliver-Gave :
          (addr : String) (q : List Envelope)
          → Gave buf t (deliver envelopes write_error addr q (m, p))
          → (write_error ≡ none)
            × (t ≡ (remove_first addr m, p))
            × (e : Envelope) × (rest : List Envelope) × (q ≡ e ∷ rest)
            × (envelopes.marshal e ≡ done buf)
      deliver-Gave addr [] h = cc
      deliver-Gave addr (e ∷ rest) h = go (envelopes.marshal e) write_error refl refl h
        where
          go :
              (x : Except Bytes) (w : Option Err)
              → envelopes.marshal e ≡ x
              → write_error ≡ w
              → Gave buf t (encoded_envelope addr x w (m, p))
              → (write_error ≡ none)
                × (t ≡ (remove_first addr m, p))
                × (e' : Envelope) × (rest' : List Envelope) × (e ∷ rest ≡ e' ∷ rest')
                × (envelopes.marshal e' ≡ done buf)
          go (fail y) w p1 p2 k = cc
          go (done b) (some y) p1 p2 k = cc
          go (done b) none p1 p2 k = (p2, cc, e, rest, refl, p1 ∙ cc)

      get-Fetched :
          Gave buf t (api_get_envelope envelopes write_error req (m, p))
          → (write_error ≡ none) × Fetched m buf t
      unfolding api_get_envelope
      get-Fetched = go (req.method =ˢ "GET") (lookup "Session-Id" req.header) refl refl
        where
          found :
              (id : String) (more : List String) (o : Option String)
              → (req.method =ˢ "GET") ≡ true
              → lookup "Session-Id" req.header ≡ some (id ∷ more)
              → lookup id m.sessions ≡ o
              → Gave buf t (fetching write_error id o (m, p))
              → (write_error ≡ none) × Fetched m buf t
          found id more none get header session h = cc
          found id more (some a) get header session h =
              let (written, now, e, rest, queue, encoded) = deliver-Gave a (queue_of a m) h in
              (
                written,
                record {
                  session_id = id;
                  addr = a;
                  envelope = e;
                  rest = rest;
                  is_get = get;
                  session = (more, header, session);
                  queue = queue;
                  encoded = encoded;
                  removed = now;
                  left = ap (λ u. queue_of a u.0) now ∙ queue-remove_first a m e rest queue;
                },
              )

          go :
              (b : Bool) (o : Option (List String))
              → (req.method =ˢ "GET") ≡ b
              → lookup "Session-Id" req.header ≡ o
              → Gave buf t (requested write_error b o (m, p))
              → (write_error ≡ none) × Fetched m buf t
          go false o get header h = cc
          go true none get header h = cc
          go true (some []) get header h = cc
          go true (some (id ∷ more)) get header h =
              found id more (lookup id m.sessions) get header refl h

      get-Gave :
          write_error ≡ none
          → Fetched m buf t
          → Gave buf t (api_get_envelope envelopes write_error req (m, p))
      unfolding api_get_envelope
      get-Gave written f =
          given f.session.1 f.session.2
          ∙ ap (λ u. (ok (respond 200 (bytes buf)), u)) (sym f.removed)
        where
          given :
              lookup "Session-Id" req.header ≡ some (f.session_id ∷ f.session.0)
              → lookup f.session_id m.sessions ≡ some f.addr
              → api_get_envelope envelopes write_error req (m, p)
                ≡ (ok (respond 200 (bytes buf)), (remove_first f.addr m, p))
          given header session =
              ground (arith, written, f.is_get, header, session, f.queue, f.encoded)

      -- A request is answered with the bytes of an envelope exactly when it is a GET with an open
      -- session, the first envelope of the session's address can be encoded and is written without
      -- an error, and these are its bytes; that envelope, and no other, then leaves the queue. A
      -- request that is not answered so changes nothing.
      pub api_get_envelope_first :
          (Gave buf t (api_get_envelope envelopes write_error req (m, p))
            ↔ ((write_error ≡ none) × Fetched m buf t))
          × Kept m (api_get_envelope envelopes write_error req (m, p))
      api_get_envelope_first = ((get-Fetched, λ h. get-Gave h.0 h.1), get-Kept)
