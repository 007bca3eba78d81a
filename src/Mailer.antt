-- ===== src/Mailer.antt =====
-- Package mailer (mailer/mailer.go, mailer/ses.go). The messages that a sender takes are the `outbox`
-- of the store; what the log sender prints is not modelled. The client of Amazon SES is a parameter.
use go_bootstrap.Prelude.{
  String, ◌≡◌, refl, inl, inr, Option-cases, Option, none, some, [], ◌∷◌, ◌++◌,
}
use go_bootstrap.Errors.{Error, wrap, ok, err}
use go_bootstrap.Exec.{Exec}
use go_bootstrap.Store.{Message, Store}

-- SendEmail of the SES client, with the sender's address: the error, if there is one.
abbrev pub SesClient : Type 0
SesClient = String → Message → Option Error

-- mailer.Outbox: the log sender until main swaps in SES.
pub data Sender : Type 0 where
  log_sender : Sender
  ses : SesClient → String → Sender

take_message : Message → Store → Store
take_message msg s = record s { outbox = s.outbox ++ msg ∷ [] }

ses_result : Message → Option Error → Exec Store (Unit {0})
unfolding take_message
ses_result msg none s = (ok tt, take_message msg s)
ses_result msg (some e) s = (err (wrap "sending via ses" e), s)

unfoldable pub send : Sender → Message → Exec Store (Unit {0})
unfolding ses_result take_message
send log_sender msg s = (ok tt, take_message msg s)
send (ses client from) msg s = ses_result msg (client from msg) s

-- Whether a message is taken does not depend on the store; one that is taken is added last.
pub send-ok :
    (outbox : Sender) (msg : Message) (s s' : Store)
    → (send outbox msg s).0 ≡ ok tt
    → send outbox msg s' ≡ (ok tt, record s' { outbox = s'.outbox ++ msg ∷ [] })
unfolding send
send-ok log_sender msg s s' h = refl
send-ok (ses client from) msg s s' h = elim (Option-cases (client from msg)) [
  | inl sent ↦ rw (sent, ses_result)
  | inr (e, failed) ↦ cc (rw (failed, ses_result) at h)
]

-- A message that is refused leaves the outbox as it was.
pub send-err :
    (outbox : Sender) (msg : Message) (s : Store) (e : Error)
    → (send outbox msg s).0 ≡ err e
    → send outbox msg s ≡ (err e, s)
unfolding send
send-err log_sender msg s e h = absurd cc
send-err (ses client from) msg s e h = elim (Option-cases (client from msg)) [
  | inl sent ↦ absurd (cc (rw (sent, ses_result) at h))
  | inr (d, failed) ↦ rw (failed, ses_result) (cc (rw (failed, ses_result) at h))
]
