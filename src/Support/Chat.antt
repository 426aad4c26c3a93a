-- ===== src/Support/Chat.antt =====
-- web/src/pages/Support.tsx: the state of the page, the polls of the messages, and the ticket.
use sentry_usb.Base.{
  ℕ, Bool, true, false, not, ◌||◌, Option, none, some, List, [], ◌∷◌, ◌++◌, String, str_eq,
  if◌then◌else◌, filter_by,
}
use sentry_usb.Base.Text.{truthy}

pub record Ticket : Type 0 where
  pub ticket_id : Option String
  pub auth_token : String
  pub thread_id : Option String

-- `ChatMessage`, with what the handlers read
pub record ChatMessage : Type 0 where
  pub id : Option String
  pub content : String

pub record File : Type 0 where
  pub name : String
  pub size : ℕ

pub data StatusKind : Type 0 where
  loading success error : StatusKind

-- What is posted to the server. The diagnostics are UTF-16 code units.
pub data Request : Type 0 where
  post_ticket : String → Option (List ℕ) → Bool → Request
  post_message : Option String → String → Option (List ℕ) → Request
  post_media : Option String → File → String → Option (List ℕ) → Request
  mark_read : Option String → Request

-- `stored` is the entry of the local storage; `posted` lists the requests, the latest first.
pub record Support : Type 0 where
  pub available : Option Bool
  pub ticket : Option Ticket
  pub messages : List ChatMessage
  pub message : String
  pub include_diagnostics : Bool
  pub attachment : Option File
  pub sending : Bool
  pub status : Option (String × StatusKind)
  pub ticket_closed : Bool
  pub last_message_id : Option String
  pub polling : Bool
  pub stored : Option Ticket
  pub posted : List Request

unfoldable pub mount : Option Ticket → Support
mount stored = record {
  available = none;
  ticket = stored;
  messages = [];
  message = "";
  include_diagnostics = false;
  attachment = none;
  sending = false;
  status = none;
  ticket_closed = false;
  last_message_id = none;
  polling = false;
  stored = stored;
  posted = [];
}

-- the reply of the check (`none`: it failed)
unfoldable pub check_reply : Option Bool → Support → Support
check_reply none s = record s { available = some false }
check_reply (some available) s = record s { available = some available }

-- the effect that polls, after a render in which it runs again
unfoldable pub poll_effect : Support → Support
poll_effect s = elim s.ticket [
  | none ↦ record s { polling = false }
  | some t ↦ record s { polling = not s.ticket_closed }
]

-- the last element of a list
abbrev pub last : List ChatMessage → Option ChatMessage
last [] = none
last (m ∷ []) = some m
last (m ∷ n ∷ ms) = last (n ∷ ms)

-- `m.id` as a condition, and `existingIds.has(m.id)` for one that is there
abbrev pub same_id : Option String → Option String → Bool
same_id none none = true
same_id none (some j) = false
same_id (some i) none = false
same_id (some i) (some j) = str_eq i j

abbrev pub has_id : Option String → List ChatMessage → Bool
has_id i [] = false
has_id i (m ∷ ms) = same_id m.id i || has_id i ms

unfoldable pub new_messages : List ChatMessage → List ChatMessage → List ChatMessage
new_messages previous incoming =
    filter_by (λ m. not (truthy m.id) || not (has_id m.id previous)) incoming

abbrev pub last_id : Option ChatMessage → Option String → Option String
last_id none old = old
last_id (some m) old = if truthy m.id then m.id else old

-- A reply of `fetchMessages`, which was asked for with a ticket: the messages, and whether the
-- ticket is closed.
unfoldable pub show_messages : Ticket → List ChatMessage → Support → Support
unfolding new_messages
show_messages t [] s = s
show_messages t (m ∷ ms) s = record s {
  messages = s.messages ++ new_messages s.messages (m ∷ ms);
  last_message_id = last_id (last (m ∷ ms)) s.last_message_id;
  posted = mark_read t.ticket_id ∷ s.posted;
}

unfoldable pub close_if : Bool → Support → Support
close_if closed s = if closed then record s { ticket_closed = true; polling = false } else s

-- `none` is a request that failed, or a reply without success or messages.
unfoldable pub fetch_reply : Ticket → Option (List ChatMessage × Bool) → Support → Support
unfolding show_messages close_if
fetch_reply t none s = s
fetch_reply t (some (incoming, closed)) s = close_if closed (show_messages t incoming s)

-- `saveTicket`; the storage may refuse the write.
unfoldable pub save_ticket : Bool → Option Ticket → Support → Support
save_ticket writable t s = record s { ticket = t; stored = if writable then t else s.stored }

-- `handleCloseTicket` once its request has ended, in whatever way, and `handleNewTicket`
unfoldable pub handle_close_ticket : Bool → Bool → Support → Support
unfolding save_ticket
handle_close_ticket writable confirmed s = elim s.ticket [
  | none ↦ s
  | some t ↦
      if confirmed
      then record (save_ticket writable none (record s { polling = false })) {
        messages = [];
        last_message_id = none;
        ticket_closed = false;
      }
      else s
]

unfoldable pub handle_new_ticket : Bool → Support → Support
unfolding save_ticket
handle_new_ticket writable s = record (save_ticket writable none s) {
  messages = [];
  last_message_id = none;
  ticket_closed = false;
  status = none;
}
