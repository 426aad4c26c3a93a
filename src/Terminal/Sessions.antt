-- ===== src/Terminal/Sessions.antt =====
-- web/src/pages/Terminal.tsx: what becomes of a session when another one is there.
use sentry_usb.Base.{ℕ, ◌≡◌, refl, true, false, ◌||◌, none, some, ◌==◌}
use sentry_usb.Base.Text.{trim, is_empty}
use sentry_usb.Terminal.{
  Terminal, disconnected, Screen, disconnect, connect, receive, auth_ok, closed, init_xterm,
  is_connected,
}

-- A session that is lost while its widget is there keeps the widget: after the next login, with the
-- same name and password, the page is connected by a new socket, but the widget is the old one, and
-- what is typed goes to the old socket.
reconnect-old_screen :
    (s : Terminal) (i j : ℕ) (screen : Screen)
    → s.ws ≡ some i
    → s.xterm ≡ some screen
    → is_empty (trim s.username) || is_empty s.password ≡ false
    → let t = init_xterm (receive j auth_ok (connect (closed i 1006 s))) in
      (is_connected t.state ≡ true) × (t.ws ≡ some s.next) × (t.xterm ≡ some screen)
unfolding init_xterm receive connect closed
reconnect-old_screen s i j screen w x n = rw (w, n, x) (refl, refl, refl)

-- A socket that closes late, in whatever way but by a lost connection, ends the session of any other
-- socket, and closes that one.
closed-other :
    (s : Terminal) (i j code : ℕ)
    → s.ws ≡ some j
    → (code == 1006) ≡ false
    → ((closed i code s).state ≡ disconnected)
      × ((closed i code s).ws ≡ none)
      × ((closed i code s).xterm ≡ none)
unfolding closed disconnect
closed-other s i j code w c = rw (w, c) (refl, refl, refl)
