-- ===== src/Terminal.antt =====
-- web/src/pages/Terminal.tsx: the terminal over a socket. Sockets are numbered in the order in which
-- they are opened; the terminal widget is what was written to it, and the socket its input goes to.
pub mod Output
pub mod Sessions
mod Examples
use sentry_usb.Base.{
  ℕ, suc, Bool, true, false, not, ◌&&◌, ◌||◌, Option, none, some, List, [], ◌∷◌, ◌++◌, String,
  if◌then◌else◌, ◌==◌,
}
use sentry_usb.Base.Text.{trim, is_empty, truthy}

pub data ConnectionState : Type 0 where
  login connecting connected disconnected error : ConnectionState

pub record Screen : Type 0 where
  pub written : List String
  pub input_socket : ℕ

-- What is sent: to which socket, and what.
pub data Sent : Type 0 where
  auth : ℕ → String → String → Sent
  input : ℕ → String → Sent
  close : ℕ → Sent

pub record Terminal : Type 0 where
  pub state : ConnectionState
  pub username : String
  pub password : String
  pub error_msg : String
  pub xterm : Option Screen
  pub ws : Option ℕ
  pub pending_output : List String
  pub next : ℕ
  pub sent : List Sent

unfoldable pub mount : Terminal
mount = record {
  state = login;
  username = "";
  password = "";
  error_msg = "";
  xterm = none;
  ws = none;
  pending_output = [];
  next = 0;
  sent = [];
}

abbrev close_socket : Option ℕ → List Sent → List Sent
close_socket none sent = sent
close_socket (some i) sent = close i ∷ sent

unfoldable pub disconnect : Terminal → Terminal
disconnect s = record s {
  sent = close_socket s.ws s.sent;
  ws = none;
  xterm = none;
  username = "";
  password = "";
  state = disconnected;
}

unfoldable pub connect : Terminal → Terminal
unfolding trim
connect s =
    let started = record s {
      state = connecting;
      error_msg = "";
      pending_output = [];
      ws = some s.next;
      next = suc s.next;
    } in
    if is_empty (trim s.username) || is_empty s.password then s else started

-- `onopen`, with the name and the password of the render in which `connect` was called
unfoldable pub opened : ℕ → String → String → Terminal → Terminal
unfolding trim
opened i username password s = record s { sent = auth i (trim username) password ∷ s.sent }

-- A message; one that cannot be parsed is passed over.
pub data Message : Type 0 where
  auth_ok exit other : Message
  auth_failed output failure : Option String → Message

abbrev or_text : Option String → String → String
or_text none text = text
or_text (some e) text = if is_empty e then text else e

abbrev data_of : Option String → String
data_of none = ""
data_of (some text) = text

-- `setState("error")` with its text, and the end of the socket
unfoldable pub fail : ℕ → String → Terminal → Terminal
fail i text s = record s { state = error; error_msg = text; ws = none; sent = close i ∷ s.sent }

unfoldable pub show_output : String → Terminal → Terminal
show_output text s = elim s.xterm [
  | some screen ↦ record s {
    xterm = some (record screen { written = screen.written ++ text ∷ [] });
  }
  | none ↦ record s { pending_output = s.pending_output ++ text ∷ [] }
]

unfoldable pub receive : ℕ → Message → Terminal → Terminal
unfolding fail show_output disconnect
receive i auth_ok s = record s { state = connected }
receive i exit s = disconnect s
receive i other s = s
receive i (auth_failed d) s = fail i (or_text d "Invalid username or password") s
receive i (output d) s = if truthy d then show_output (data_of d) s else s
receive i (failure d) s = fail i (or_text d "Terminal error") s

abbrev is_some : Option ℕ → Bool
is_some none = false
is_some (some i) = true

-- `onclose` of the socket, with the code of the end
unfoldable pub closed : ℕ → ℕ → Terminal → Terminal
unfolding disconnect
closed i code s =
    let lost = record s {
      state = error;
      error_msg = "Connection lost. Check your network and try again.";
      ws = none;
    } in
    if not (is_some s.ws) then s else if code == 1006 then lost else disconnect s

unfoldable pub errored : ℕ → Terminal → Terminal
errored i s = record s { state = error; error_msg = "WebSocket connection failed" }

-- The effect after a change of the state: the widget is made once the container is there.
abbrev is_connected : ConnectionState → Bool
is_connected connected = true
is_connected login = false
is_connected connecting = false
is_connected disconnected = false
is_connected error = false

abbrev make_screen : Option ℕ → Option Screen → Terminal → Terminal
make_screen none x s = s
make_screen (some i) (some x) s = s
make_screen (some i) none s = record s {
  xterm = some (record { written = s.pending_output; input_socket = i });
  pending_output = [];
}

unfoldable pub init_xterm : Terminal → Terminal
init_xterm s = if is_connected s.state then make_screen s.ws s.xterm s else s

-- Typing into the widget, while its socket is open.
unfoldable pub type_input : String → Terminal → Terminal
type_input text s = elim s.xterm [
  | none ↦ s
  | some screen ↦ record s { sent = input screen.input_socket text ∷ s.sent }
]

-- the end of the page
unfoldable pub unmount : Terminal → Terminal
unmount s = record s { sent = close_socket s.ws s.sent; ws = none; xterm = none }
