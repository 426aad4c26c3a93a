-- ===== src/Support/Examples.antt =====
-- web/src/pages/Support.tsx: a ticket with two messages, and a message that is sent.
use sentry_usb.Base.{
  ◌≡◌, ◌⊎◌, refl, ◌&&◌, Bool, true, false, not, Option, none, some, List, [], ◌∷◌, all,
}
use sentry_usb.Base.Text.{trim, trim_start, trim_end, is_empty}
use sentry_usb.Base.Exec.{
  returned, threw, done, modify, pure, throw, lift, try_catch, finally_do, ◌>>=◌, ◌>>◌,
}
use sentry_usb.Support.Chat.{
  Ticket, ChatMessage, success, Support, mount, show_messages, close_if, fetch_reply, new_messages,
  save_ticket, handle_new_ticket,
}
use sentry_usb.Support.Sanitize.{
  sanitize, strip_escapes, match_escape, match_parameters, replace_surrogates, strip_controls,
}
use sentry_usb.Support.Send.{
  Answers, is_some, handle_send, send_body, collect, ticket_for, create_ticket, send_message,
  upload, clear_form, show, post, keep_ticket,
}
use sentry_usb.Support.Form.{IsSent, IsKept}
use sentry_usb.Support.Sending.{handle_send-outcome}
use sentry_usb.Support.Ids.{distinct_ids}
use sentry_usb.Support.Messages.{IsLonger, all_shown, messages_of, polls, polls_complete}

abbrev ticket : Ticket
ticket = record { ticket_id = some "t1"; auth_token = "a"; thread_id = none }

abbrev hello : ChatMessage
hello = record { id = some "1"; content = "hello" }

abbrev reply : ChatMessage
reply = record { id = some "2"; content = "hi" }

abbrev open_chat : Support
open_chat = record (mount (some ticket)) { message = " hello "; messages = hello ∷ [] }

abbrev replies : List (Option (List ChatMessage × Bool))
replies = some (hello ∷ reply ∷ [], false) ∷ none ∷ some (reply ∷ [], true) ∷ []

polled : (polls ticket replies open_chat).messages ≡ hello ∷ reply ∷ []
unfolding mount fetch_reply show_messages close_if new_messages
polled = refl

polls_complete_example :
    (distinct_ids (polls ticket replies open_chat).messages ≡ true)
    × (IsLonger open_chat.messages (polls ticket replies open_chat).messages)
    × (all (λ r. all_shown (messages_of r) (polls ticket replies open_chat).messages) replies
        ≡ true)
unfolding mount
polls_complete_example = polls_complete ticket replies open_chat refl refl

-- A reply that was asked for before the ticket was given up brings its messages back.
stale :
    (fetch_reply ticket (some (hello ∷ [], false)) (handle_new_ticket true open_chat)).messages
    ≡ hello ∷ []
unfolding mount fetch_reply show_messages close_if new_messages handle_new_ticket save_ticket
stale = refl

abbrev answers : Answers
answers = record {
  writable = true;
  diagnostics = returned (27 ∷ 91 ∷ 51 ∷ 49 ∷ 109 ∷ 72 ∷ 105 ∷ 10 ∷ []);
  created = threw "no";
  sent = returned (true, none);
  file_read = returned done;
  media = returned 413;
}

cleaned : sanitize (27 ∷ 91 ∷ 51 ∷ 49 ∷ 109 ∷ 72 ∷ 105 ∷ 10 ∷ []) ≡ 72 ∷ 105 ∷ 10 ∷ []
unfolding sanitize strip_escapes match_escape match_parameters replace_surrogates strip_controls
cleaned = refl

-- The status of the upload is not looked at.
sent_refused :
    (handle_send answers
      (record open_chat { attachment = some (record { name = "a.png"; size = 9 }) })).status
    ≡ some ("Sent!", success)
unfolding handle_send send_body collect ticket_for create_ticket send_message upload clear_form show
    post keep_ticket modify pure throw lift try_catch finally_do ◌>>=◌ ◌>>◌ mount trim trim_start
    trim_end
sent_refused = refl

handle_send-outcome_example :
    ((is_empty (trim open_chat.message) && not (is_some open_chat.attachment) ≡ true)
      × (handle_send answers open_chat ≡ open_chat))
    ⊎ (((handle_send answers open_chat).sending ≡ false)
        × (IsSent open_chat (handle_send answers open_chat)
            ⊎ IsKept open_chat (handle_send answers open_chat)))
handle_send-outcome_example = handle_send-outcome answers open_chat
