-- ===== src/Ws.antt =====
-- web/src/lib/ws.ts: the WebSocket client. A socket is a number; the browser's table of sockets
-- gives each its ready state. A method returns the new state. What the client tells the outside
-- (status listeners, message handlers, pings, timers) is written to `log`, the latest first.
pub mod Status
pub mod Retry
pub mod Subscribe
pub mod Delivery
pub mod Closing
mod Examples
use sentry_usb.Base.{
  ℕ, suc, ◌+◌, Bool, true, false, ◌&&◌, not, Option, none, some, List, [], ◌∷◌, ◌++◌, map, String,
  ◌≡◌, ◌≢◌, ◌==◌, if◌then◌else◌, filter_by, any,
}
use sentry_usb.Base.Dict.{get, put}

-- `WebSocket.readyState`
pub data ReadyState : Type 0 where
  connecting open_state closing closed : ReadyState

abbrev pub is_open : ReadyState → Bool
is_open open_state = true
is_open _ = false

pub data Effect : Type 0 where
  -- `cb(value)` for a status listener
  notify : ℕ → Bool → Effect
  -- `handler(msg.data)`
  deliver : ℕ → ℕ → Effect
  -- `ws.send({ type: "ping" })`
  ping : ℕ → Effect

pub record Client : Type 0 where
  pub ws : Option ℕ
  pub handlers : List (String × List ℕ)
  pub reconnect_timer : Bool
  pub ping_timer : Bool
  pub connected : Bool
  pub status_listeners : List ℕ
  -- the browser: the ready state of each socket, and how many were made
  pub sockets : ℕ → ReadyState
  pub made : ℕ
  pub log : List Effect

unfoldable pub initial : Client
initial = record {
  ws = none;
  handlers = [];
  reconnect_timer = false;
  ping_timer = false;
  connected = false;
  status_listeners = [];
  sockets = λ _. closed;
  made = 0;
  log = [];
}

abbrev pub set_socket : (ℕ → ReadyState) → ℕ → ReadyState → ℕ → ReadyState
set_socket table i r j = if i == j then r else table j

-- `this.ws?.readyState === WebSocket.OPEN`
abbrev pub ws_open : Option ℕ → (ℕ → ReadyState) → Bool
ws_open none table = false
ws_open (some i) table = is_open (table i)

-- A `Set` keeps one copy of a member, at its first place.
unfoldable pub add_member : ℕ → List ℕ → List ℕ
add_member a l = if any (λ b. b == a) l then l else l ++ a ∷ []

unfoldable pub delete_member : ℕ → List ℕ → List ℕ
delete_member a l = filter_by (λ b. not (b == a)) l

-- `statusListeners.forEach((cb) => cb(value))`, the first call deepest in the log
unfoldable pub notify_all : List ℕ → Bool → List Effect → List Effect
notify_all [] value log = log
notify_all (cb ∷ cbs) value log = notify_all cbs value (notify cb value ∷ log)

abbrev pub same_bool : Bool → Bool → Bool
same_bool true b = b
same_bool false b = not b

-- `setConnected`
unfoldable pub set_connected : Bool → Client → Client
set_connected value c =
    if same_bool c.connected value
    then c
    else record c { connected = value; log = notify_all c.status_listeners value c.log }

-- `onStatusChange`, and the function that it returns
unfoldable pub on_status_change : ℕ → Client → Client
on_status_change cb c = record c { status_listeners = add_member cb c.status_listeners }

unfoldable pub off_status_change : ℕ → Client → Client
off_status_change cb c = record c { status_listeners = delete_member cb c.status_listeners }

-- `startPing` clears the interval that runs, if any, before it starts one: at most one runs.
unfoldable pub stop_ping : Client → Client
stop_ping c = if c.ping_timer then record c { ping_timer = false } else c

unfoldable pub start_ping : Client → Client
unfolding stop_ping
start_ping c = record (stop_ping c) { ping_timer = true }

unfoldable pub schedule_reconnect : Client → Client
schedule_reconnect c = if c.reconnect_timer then c else record c { reconnect_timer = true }

-- `connect`: the new socket starts out connecting, and replaces `this.ws`.
unfoldable pub connect : Client → Client
connect c = if ws_open c.ws c.sockets then c else record c {
  ws = some c.made;
  sockets = set_socket c.sockets c.made connecting;
  made = suc c.made;
}

-- `WebSocket.close()` on a socket that is not closed starts the closing handshake.
abbrev pub begin_close : ReadyState → ReadyState
begin_close closed = closed
begin_close _ = closing

unfoldable pub close_ws : Client → Client
close_ws c = elim c.ws [
  | none ↦ c
  | some i ↦ record c { sockets = set_socket c.sockets i (begin_close (c.sockets i)) }
]

unfoldable pub disconnect : Client → Client
unfolding stop_ping close_ws
disconnect c =
    let d = stop_ping c in record (close_ws (record d { reconnect_timer = false })) { ws = none }

unfoldable pub reconnect : Client → Client
unfolding disconnect connect
reconnect c = connect (disconnect c)

-- The handlers of a message type; a missing key has none.
unfoldable pub handlers_of : String → List (String × List ℕ) → List ℕ
handlers_of type table = elim (get type table) [ none ↦ [] | some hs ↦ hs ]

unfoldable pub subscribe : String → ℕ → Client → Client
unfolding connect
subscribe type handler c =
    let d = record c {
      handlers = put type (add_member handler (handlers_of type c.handlers)) c.handlers;
    } in
    if ws_open d.ws d.sockets then d else connect d

-- the function that `subscribe` returns: `this.handlers.get(type)?.delete(handler)`
unfoldable pub unsubscribe : String → ℕ → Client → Client
unsubscribe type handler c = elim (get type c.handlers) [
  | none ↦ c
  | some hs ↦ record c { handlers = put type (delete_member handler hs) c.handlers }
]

-- `handlers.forEach((handler) => handler(msg.data))`; `throws` says which of the handlers throw at
-- this message. The exception ends the loop, and the `catch` around it drops it.
unfoldable pub deliver_all : (ℕ → Bool) → List ℕ → ℕ → List Effect → List Effect
deliver_all throws [] payload log = log
deliver_all throws (h ∷ hs) payload log =
    let called = deliver h payload ∷ log in
    let rest = deliver_all throws hs payload called in if throws h then called else rest

-- The events of the browser. The callbacks of a replaced socket stay attached to it.
unfoldable pub on_open : ℕ → Client → Client
unfolding set_connected start_ping
on_open i c =
    start_ping (set_connected true (record c { sockets = set_socket c.sockets i open_state }))

-- `none` is a frame that `JSON.parse` refuses.
unfoldable pub on_message : (ℕ → Bool) → Option (String × ℕ) → Client → Client
on_message throws none c = c
on_message throws (some (type, payload)) c = elim (get type c.handlers) [
  | none ↦ c
  | some hs ↦ record c { log = deliver_all throws hs payload c.log }
]

unfoldable pub on_close : ℕ → Client → Client
unfolding stop_ping set_connected schedule_reconnect
on_close i c =
    schedule_reconnect
      (set_connected false (stop_ping (record c { sockets = set_socket c.sockets i closed })))

-- `onerror` closes the client's current socket, whichever socket failed.
unfoldable pub on_error : ℕ → Client → Client
unfolding close_ws
on_error i c = close_ws c

-- the interval of `startPing`
unfoldable pub ping_tick : Client → Client
ping_tick c = elim c.ws [
  | none ↦ c
  | some i ↦ if is_open (c.sockets i) then record c { log = ping i ∷ c.log } else c
]

-- the timeout of `scheduleReconnect`
unfoldable pub reconnect_fire : Client → Client
unfolding connect
reconnect_fire c = connect (record c { reconnect_timer = false })

-- What can happen to the client: calls of its methods, and what the browser does. A socket opens
-- only while it connects, and reports its close once; a timer fires only while it is set.
pub data Step : Client → Client → Type 0 where
  call_connect : (c : Client) → Step c (connect c)
  call_disconnect : (c : Client) → Step c (disconnect c)
  call_reconnect : (c : Client) → Step c (reconnect c)
  call_subscribe : (type : String) (h : ℕ) (c : Client) → Step c (subscribe type h c)
  call_unsubscribe : (type : String) (h : ℕ) (c : Client) → Step c (unsubscribe type h c)
  call_listen : (cb : ℕ) (c : Client) → Step c (on_status_change cb c)
  call_unlisten : (cb : ℕ) (c : Client) → Step c (off_status_change cb c)
  socket_open : (i : ℕ) (c : Client) → c.sockets i ≡ connecting → Step c (on_open i c)
  socket_message :
      (throws : ℕ → Bool) (m : Option (String × ℕ)) (c : Client) → Step c (on_message throws m c)
  socket_close : (i : ℕ) (c : Client) → c.sockets i ≢ closed → Step c (on_close i c)
  socket_error : (i : ℕ) (c : Client) → Step c (on_error i c)
  ping_timer : (c : Client) → c.ping_timer ≡ true → Step c (ping_tick c)
  reconnect_timer : (c : Client) → c.reconnect_timer ≡ true → Step c (reconnect_fire c)

pub data Reach (s : Client) : Client → Type 0 where
  here : Reach s s
  next : {t u : Client} → Reach s t → Step t u → Reach s u
