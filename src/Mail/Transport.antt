-- ===== src/Mail/Transport.antt =====
-- The transport of the process: it is made by the first mail, and whatever came of that stays.
use mathlib.Core.Path.{subst}
use ticket_booking_system.Common.{
  ◌∙◌, ℕ, Option, none, some, List, [], ◌∷◌, ◌≡◌, refl, sym, ap, All,
}
use ticket_booking_system.Errors.{Result, ok, err, Error}
use ticket_booking_system.Mail.{
  MailEnv, Message, Post, Mailer, ◌>>=◌, new_transport, get_transport, send_mail,
}

-- A call of `sendMail`: the test account that the network would answer with, and the message.
pub record Sending : Type 0 where
  pub account : Result ℕ
  pub message : Message

module _ (post : Post) (env : MailEnv) where
  -- The calls of a process, one after the other.
  unfoldable pub send_all : List Sending → Mailer → List (Result (Option ℕ)) × Mailer
  send_all [] m = ([], m)
  send_all (s ∷ ss) m =
      let (sent, m') = send_mail post env s.account s.message m in
      let (rest, m'') = send_all ss m' in (sent ∷ rest, m'')

  -- The process once its transport has settled.
  abbrev pub settled : Result ℕ → Mailer
  settled transport = record { transport_promise = some transport }

  -- What a settled transport makes of a message.
  abbrev pub delivered : Result ℕ → Sending → Result (Option ℕ)
  delivered transport s = transport >>= λ t.
      post.deliver t env.mail_from s.message >>= λ info. ok (post.get_test_message_url info)

  abbrev pub deliver_all : Result ℕ → List Sending → List (Result (Option ℕ))
  deliver_all transport [] = []
  deliver_all transport (s ∷ ss) = delivered transport s ∷ deliver_all transport ss

  send_all-settled :
      (transport : Result ℕ) (ss : List Sending)
      → send_all ss (settled transport) ≡ (deliver_all transport ss, settled transport)
  unfolding send_all send_mail get_transport
  send_all-settled transport [] = refl
  send_all-settled transport (s ∷ ss) = rw (send_all-settled transport ss) refl

  -- A process makes one transport, on its first mail: every mail of it is delivered by what came of
  -- that call, whatever accounts the network would offer later. Where the first call fails, every
  -- later mail fails with the same error, as long as the process runs.
  send_all-first_transport :
      (s : Sending) (ss : List Sending)
      → send_all (s ∷ ss) (record { transport_promise = none }) ≡ (
        deliver_all (new_transport post env s.account) (s ∷ ss),
        settled (new_transport post env s.account),
      )
  unfolding send_all send_mail get_transport
  send_all-first_transport s ss = rw (send_all-settled (new_transport post env s.account) ss) refl

  deliver_all-err : (e : Error) (ss : List Sending) → All (λ r. r ≡ err e) (deliver_all (err e) ss)
  deliver_all-err e [] = tt
  deliver_all-err e (s ∷ ss) = (refl, deliver_all-err e ss)

  -- Where no host is configured and the creation of the test account fails on the first mail: that
  -- mail and every later one of the process fail with the same error, whatever accounts the network
  -- would offer by then.
  pub send_all-lost :
      (s : Sending) (ss : List Sending) (e : Error)
      → env.smtp_host ≡ none
      → s.account ≡ err e
      → All (λ r. r ≡ err e) (send_all (s ∷ ss) (record { transport_promise = none })).0
  send_all-lost s ss e no_host refused =
      let lost : new_transport post env s.account ≡ err e = rw no_host (rw refused refl) in
      let results =
        ap (λ r. r.0) (send_all-first_transport s ss)
        ∙ ap (λ transport. deliver_all transport (s ∷ ss)) lost in
      subst (λ rs. All (λ r. r ≡ err e) rs) (sym results) (deliver_all-err e (s ∷ ss))
