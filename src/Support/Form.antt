-- ===== src/Support/Form.antt =====
-- web/src/pages/Support.tsx: what the steps of `handleSend` keep of the form, the messages and the
-- ticket.
use sentry_usb.Base.{◌≡◌, false, Option, none, some, List, ◌∷◌, String}
use sentry_usb.Base.Ensures.{Ensures, Ensures-modify}
use sentry_usb.Support.Chat.{Ticket, StatusKind, success, error, Request, Support}
use sentry_usb.Support.Send.{show, post}

-- The form and the messages are those of `s`.
pub record IsSameForm (s t : Support) : Type 0 where
  pub message : t.message ≡ s.message
  pub include_diagnostics : t.include_diagnostics ≡ s.include_diagnostics
  pub attachment : t.attachment ≡ s.attachment
  pub messages : t.messages ≡ s.messages

pub record HasTicket (t : Support) : Type 0 where
  pub ticket : Ticket
  pub there : t.ticket ≡ some ticket

-- The form is cleared, and there is a ticket.
pub record IsSent (s t : Support) : Type 0 where
  pub message : t.message ≡ ""
  pub include_diagnostics : t.include_diagnostics ≡ false
  pub attachment : t.attachment ≡ none
  pub messages : t.messages ≡ s.messages
  pub status : t.status ≡ some ("Sent!", success)
  pub ticket : HasTicket t

-- The form is kept, and an error is shown.
pub record IsKept (s t : Support) : Type 0 where
  pub form : IsSameForm s t
  pub text : String
  pub status : t.status ≡ some (text, error)

-- Showing a status and posting a request keep the predicate.
pub record IsStable (P : Support → Type 0) : Type 0 where
  pub status :
      (t : Support) (st : Option (String × StatusKind)) → P t → P (record t { status = st })
  pub posted : (t : Support) (rs : List Request) → P t → P (record t { posted = rs })

module _ {P E : Support → Type 0} (stable : IsStable P) where
  pub show-Ensures : (text : String) (kind : StatusKind) → Ensures P (show text kind) P E
  unfolding show
  show-Ensures text kind = Ensures-modify _ (λ t h. stable.status t (some (text, kind)) h)

  pub post-Ensures : (r : Request) → Ensures P (post r) P E
  unfolding post
  post-Ensures r = Ensures-modify _ (λ t h. stable.posted t (r ∷ t.posted) h)
