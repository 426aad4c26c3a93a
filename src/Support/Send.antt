-- ===== src/Support/Send.antt =====
-- web/src/pages/Support.tsx: `handleSend`. The handler reads the form and the ticket of the render
-- in which it was made.
use sentry_usb.Base.{
  ℕ, Bool, true, false, not, ◌&&◌, Option, none, some, List, ◌∷◌, String, if◌then◌else◌,
}
use sentry_usb.Base.Text.{trim, is_empty, truthy}
use sentry_usb.Base.Exec.{
  Outcome, Done, done, Exec, pure, throw, lift, try_catch, finally_do, modify, ◌>>=◌, ◌>>◌,
}
use sentry_usb.Support.Chat.{
  Ticket, File, StatusKind, loading, success, error, Request, post_ticket, post_message, post_media,
  Support, save_ticket,
}
use sentry_usb.Support.Sanitize.{sanitize}

-- the reply to a new ticket
pub record Created : Type 0 where
  pub success : Bool
  pub ticket_id : Option String
  pub auth_token : String
  pub thread_id : Option String
  pub error_text : Option String

-- What the requests come to. Only that of a message and of a new ticket is looked at; the
-- refresh of the diagnostics cannot fail, and `media` is the status of the upload.
pub record Answers : Type 0 where
  pub writable : Bool
  pub diagnostics : Outcome (List ℕ)
  pub created : Outcome Created
  pub sent : Outcome (Bool × Option String)
  pub file_read : Outcome Done
  pub media : Outcome ℕ

abbrev pub or_text : Option String → String → String
or_text none text = text
or_text (some e) text = if is_empty e then text else e

unfoldable pub show : String → StatusKind → Exec Support Done
unfolding modify
show text kind = modify (λ s. record s { status = some (text, kind) })

unfoldable pub post : Request → Exec Support Done
unfolding modify
post r = modify (λ s. record s { posted = r ∷ s.posted })

unfoldable pub collect : Answers → Bool → Exec Support (Option (List ℕ))
unfolding pure show lift ◌>>=◌ ◌>>◌ sanitize
collect a false = pure none
collect a true = do
  _ ← show "Collecting diagnostics..." loading
  raw ← lift a.diagnostics
  pure (some (sanitize raw))

abbrev pub ticket_of : Created → Ticket
ticket_of c = record { ticket_id = c.ticket_id; auth_token = c.auth_token; thread_id = c.thread_id }

unfoldable pub keep_ticket : Answers → Created → Exec Support Ticket
unfolding modify save_ticket pure ◌>>=◌
keep_ticket a c = do _ ← modify (save_ticket a.writable (some (ticket_of c))); pure (ticket_of c)

unfoldable pub create_ticket : Answers → String → Bool → Option (List ℕ) → Exec Support Ticket
unfolding show post lift throw keep_ticket ◌>>=◌
create_ticket a text has_attachment diagnostics = do
  _ ← show "Creating support ticket..." loading
  _ ← post (post_ticket text diagnostics has_attachment)
  c ← lift a.created
  let failed = not c.success && not (truthy c.ticket_id)
  if failed then throw (or_text c.error_text "Failed to create ticket") else keep_ticket a c

unfoldable pub send_message : Answers → Ticket → String → Option (List ℕ) → Exec Support Done
unfolding show post lift throw pure ◌>>=◌
send_message a t text diagnostics = do
  _ ← show "Sending message..." loading
  _ ← post (post_message t.ticket_id text diagnostics)
  r ← lift a.sent
  if r.0 then pure done else throw (or_text r.1 "Failed to send message")

abbrev pub is_some : Option File → Bool
is_some none = false
is_some (some f) = true

unfoldable pub ticket_for :
    Answers → Option Ticket → String → Option File → Option (List ℕ) → Exec Support Ticket
unfolding create_ticket send_message pure ◌>>=◌
ticket_for a none text attachment diagnostics =
    create_ticket a text (is_some attachment) diagnostics
ticket_for a (some t) text (some f) diagnostics = pure t
ticket_for a (some t) text none diagnostics = do _ ← send_message a t text diagnostics; pure t

unfoldable pub upload :
    Answers → Ticket → String → Option File → Option (List ℕ) → Exec Support Done
unfolding show post lift pure ◌>>=◌
upload a t text none diagnostics = pure done
upload a t text (some f) diagnostics = do
  _ ← show "Uploading attachment..." loading
  _ ← lift a.file_read
  _ ← post (post_media t.ticket_id f text diagnostics)
  _ ← lift a.media
  pure done

unfoldable pub clear_form : Support → Support
clear_form s = record s {
  message = "";
  include_diagnostics = false;
  attachment = none;
  status = some ("Sent!", success);
}

unfoldable pub send_body : Answers → Support → Exec Support Done
unfolding collect ticket_for upload clear_form modify ◌>>=◌
send_body a s = do
  diagnostics ← collect a s.include_diagnostics
  t ← ticket_for a s.ticket (trim s.message) s.attachment diagnostics
  _ ← upload a t (trim s.message) s.attachment diagnostics
  modify clear_form

-- the state after `handleSend`
unfoldable pub handle_send : Answers → Support → Support
unfolding send_body finally_do try_catch show trim
handle_send a s =
    let started = record s { sending = true; status = some ("Sending...", loading) } in
    let ended =
      finally_do (try_catch (send_body a s) (λ text. show text error))
        (λ t. record t { sending = false }) started in
    if is_empty (trim s.message) && not (is_some s.attachment) then s else ended.1

-- the timer of the status
unfoldable pub clear_status : Support → Support
clear_status s = record s { status = none }
