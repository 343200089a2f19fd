-- ===== src/Tests/MailboxExamples.antt =====
-- The mailbox with one session.
use open_acn.Base.{Option, Err, ◌↔◌, ◌≡◌, none, some, List, [], ◌∷◌, ◌++◌, ok, refl, false}
use open_acn.Base.GoMap.{lookup}
use open_acn.Mailbox.State.{start, register, unregister, queue_of, remove_first, is_addr_registered}
use open_acn.Mailbox.State.Refinement.{
  step, Event, routed, fetched, registered, after, accepted, delivered, delivered-accepted,
}
use open_acn.Mailbox.State.View.{step_view, answer, step_view_comm}
use mathlib.Core.Quot
use open_acn.Mailbox.State.Invariant.{IsValid, after-IsValid}
use open_acn.Mailbox.Handlers.{respond, text, api_register, api_get_envelope}
use open_acn.Mailbox.Handlers.Fetch.{api_get_envelope_first, Gave, Fetched, Kept}
use open_acn.Mailbox.Handlers.Laws.{double_registration, Accepted, api_register-Accepted}
use open_acn.Tests.Fixtures.{envelopes, envelope_of, mailbox, request, peer, record_of, records}

-- The agent fetches between two envelopes, and another agent comes.
abbrev events : List Event
events =
    routed (envelope_of (9 ∷ []))
    ∷ fetched "agent"
    ∷ registered "t" (record_of "other")
    ∷ routed (envelope_of (10 ∷ []))
    ∷ fetched "agent"
    ∷ []

delivered-accepted_example :
    queue_of "agent" mailbox ++ accepted "agent" events mailbox
    ≡ delivered "agent" events mailbox ++ queue_of "agent" (after events mailbox)
delivered-accepted_example =
    delivered-accepted "agent" events mailbox (tt, (tt, (refl, (tt, (tt, tt)))))

-- An envelope for "agent" comes before or after "other" registers.
abbrev coming : Event
coming = routed (envelope_of (9 ∷ []))

abbrev joining : Event
joining = registered "t" (record_of "other")

step_view_comm_example :
    (step_view coming (step_view joining (Quot.mk mailbox))
      ≡ step_view joining (step_view coming (Quot.mk mailbox)))
    × (answer coming (step joining mailbox) ≡ answer coming mailbox)
    × (answer joining (step coming mailbox) ≡ answer joining mailbox)
step_view_comm_example = step_view_comm coming joining mailbox (refl, tt)

after-IsValid_example : IsValid (after events (start (1 ∷ [])))
after-IsValid_example = after-IsValid (1 ∷ []) events

double_registration_example :
    (lookup "t" (unregister "s" "agent" (register "t" (record_of "agent") mailbox)).sessions
      ≡ some "agent")
    × (is_addr_registered "agent"
          (unregister "s" "agent" (register "t" (record_of "agent") mailbox))
        ≡ false)
double_registration_example = double_registration "s" "t" (record_of "agent") mailbox refl

abbrev no_error : Option Err
no_error = none

api_get_envelope_first_example :
    (Gave tt envelopes
        (request "GET" "s")
        (7 ∷ [])
        (remove_first "agent" mailbox, tt)
        (api_get_envelope envelopes none (request "GET" "s") (mailbox, tt))
      ↔ ((no_error ≡ none)
          × Fetched tt envelopes
              (request "GET" "s")
              mailbox
              (7 ∷ [])
              (remove_first "agent" mailbox, tt)))
    × Kept tt envelopes
        (request "GET" "s")
        mailbox
        (api_get_envelope envelopes none (request "GET" "s") (mailbox, tt))
api_get_envelope_first_example =
    api_get_envelope_first tt envelopes (request "GET" "s") no_error mailbox (7 ∷ [])
      (remove_first "agent" mailbox, tt)

-- The envelope is given.
envelope_given :
    Gave tt envelopes
      (request "GET" "s")
      (7 ∷ [])
      (remove_first "agent" mailbox, tt)
      (api_get_envelope envelopes none (request "GET" "s") (mailbox, tt))
unfolding api_get_envelope lookup
envelope_given = refl

registration_accepted :
    api_register records peer "u" (request "POST" "s") (mailbox, tt)
    ≡ (ok (respond 200 (text "u")), (register "u" (record_of "agent") mailbox, tt))
unfolding api_register
registration_accepted = refl

api_register-Accepted_example : Accepted records peer (request "POST" "s").body
api_register-Accepted_example =
    api_register-Accepted tt records peer "u" mailbox (register "u" (record_of "agent") mailbox, tt)
      (text "u") (request "POST" "s") registration_accepted
