-- ===== src/Terminal/Examples.antt =====
-- web/src/pages/Terminal.tsx: a session with its first texts.
use sentry_usb.Base.{◌≡◌, refl, none, some, List, [], ◌∷◌}
use sentry_usb.Terminal.{Terminal, connected, init_xterm}
use sentry_usb.Terminal.Output.{Event, came, rendered, run, written_of, init_xterm-texts}

abbrev session : Terminal
session = record {
  state = connected;
  username = "pi";
  password = "p";
  error_msg = "";
  xterm = none;
  ws = some 0;
  pending_output = [];
  next = 1;
  sent = [];
}

abbrev events : List Event
events = came 0 "hello" ∷ rendered ∷ came 0 "" ∷ came 0 "world" ∷ []

init_xterm-texts_example :
    written_of (init_xterm (run events session)).xterm ≡ "hello" ∷ "world" ∷ []
init_xterm-texts_example = init_xterm-texts session 0 events refl refl refl refl
