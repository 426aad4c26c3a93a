-- ===== src/Settings/Install.antt =====
-- web/src/pages/Settings.tsx: `handleInstallUpdate`, as the events that follow its call: the
-- replies to its two requests, the messages of the server, the timers and the replies to the polls
-- of the version.
use sentry_usb.Base.{
  ℕ, Bool, true, false, Option, none, some, List, [], ◌∷◌, String, if◌then◌else◌, suc, zero,
}
use sentry_usb.Base.Text.{is_empty, truthy, concat}
use sentry_usb.Base.Dict.{get}
use sentry_usb.Settings.Update.{
  UpdateStatus, idle, checking_internet, checking, downloading, installing, updating_scripts,
  restarting, reconnecting, done, error, Update, or_text, rest,
}

-- What the handler waits for.
pub data Awaited : Type 0 where
  internet update nothing : Awaited

-- An installation: `subscribed` while it listens to the messages, `start_timer` while the timer of
-- 20 seconds is set, `poll_interval` while the version is polled, `guard_timer` while the timer of
-- three minutes is set. `polls` are the requests for the version that are on their way.
pub record Install : Type 0 where
  pub page : Update
  pub awaited : Awaited
  pub subscribed : Bool
  pub start_timer : Bool
  pub poll_interval : Bool
  pub guard_timer : Bool
  pub reconnected : Bool
  pub polls : ℕ

unfoldable pub handle_install_update : Update → Install
handle_install_update s = record {
  page = record s {
    update_status = checking_internet;
    update_error = none;
    update_message = some "Checking internet connection...";
  };
  awaited = internet;
  subscribed = true;
  start_timer = false;
  poll_interval = false;
  guard_timer = false;
  reconnected = false;
  polls = 0;
}

-- `UpdateMessage` of the server
pub record Message : Type 0 where
  pub status : Option String
  pub message : Option String
  pub error_text : Option String

abbrev status_map : List (String × UpdateStatus)
status_map =
    ("checking_internet", checking_internet)
    ∷ ("checking", checking)
    ∷ ("remounting", installing)
    ∷ ("downloading", downloading)
    ∷ ("installing", installing)
    ∷ ("updating_scripts", updating_scripts)
    ∷ ("restarting", restarting)
    ∷ []

abbrev or_installing : Option UpdateStatus → UpdateStatus
or_installing none = installing
or_installing (some status) = status

unfoldable pub status_of : String → UpdateStatus
unfolding get
status_of status = or_installing (get status status_map)

abbrev set_status : Option String → Update → Update
set_status none p = p
set_status (some status) p =
    if is_empty status then p else record p { update_status = status_of status }

unfoldable pub show_message : Message → Update → Update
unfolding status_of
show_message m p =
    let moved = set_status m.status p in
    if truthy m.error_text
    then record p { update_status = error; update_error = m.error_text; update_message = none }
    else if truthy m.message
    then record moved { update_message = m.message }
    else moved

unfoldable pub receive : Message → Install → Install
unfolding show_message
receive m i = if i.subscribed then record i { page = show_message m i.page } else i

-- The end of the handler with an error: by the missing connection, and by an exception.
unfoldable pub fail_offline : Install → Install
fail_offline i = record i {
  page = record i.page {
    update_status = error;
    update_error = some "No internet connection. Connect to WiFi first.";
    update_message = none;
  };
  subscribed = false;
  awaited = nothing;
}

unfoldable pub fail : String → Install → Install
fail text i = record i {
  page = record i.page {
    update_status = error;
    update_error = some text;
    update_message = none;
    revert_stable = none;
  };
  subscribed = false;
  awaited = nothing;
}

-- What the request came to: an answer, or an exception with its text.
pub data Reply {ℓ} (A : Type ℓ) : Type ℓ where
  ok : A → Reply A
  failed : String → Reply A

-- the reply to `/api/system/check-internet`: whether it is connected
unfoldable pub internet_reply : Reply Bool → Install → Install
unfolding fail fail_offline
internet_reply (ok true) i = record i { awaited = update }
internet_reply (ok false) i = fail_offline i
internet_reply (failed text) i = fail text i

-- the reply to `/api/system/update`: whether it was accepted
unfoldable pub update_reply : Reply Bool → Install → Install
unfolding fail
update_reply (ok true) i = record i { awaited = nothing; start_timer = true }
update_reply (ok false) i = fail "Failed to start update" i
update_reply (failed text) i = fail text i

-- the timer of 20 seconds
unfoldable pub start_reconnecting : Install → Install
start_reconnecting i = record i {
  page = record i.page {
    update_status = reconnecting;
    update_message = some "Waiting for device to come back online...";
  };
  subscribed = false;
  start_timer = false;
  poll_interval = true;
  guard_timer = true;
}

-- A reply to a poll: the version if the request succeeded, `none` otherwise.
unfoldable pub version_reply : Option (Option String) → Install → Install
unfolding concat
version_reply none i = i
version_reply (some v) i = record i {
  page = record i.page {
    stable_update = none;
    prerelease_update = none;
    revert_stable = none;
    update_status = done;
    update_message = some (concat "Update complete — now running " (or_text v "latest"));
    version = some (or_text v "unknown");
  };
  poll_interval = false;
  reconnected = true;
}

-- the timer of three minutes
unfoldable pub give_up : Install → Install
give_up i = if i.reconnected then record i { guard_timer = false } else record i {
  page = record i.page {
    update_status = idle;
    update_message = none;
    update_error = some "Update may still be in progress. Refresh the page in a moment.";
  };
  guard_timer = false;
  poll_interval = false;
}

pub data Event : Type 0 where
  message : Message → Event
  internet_replied : Reply Bool → Event
  update_replied : Reply Bool → Event
  start_fired : Event
  ticked : Event
  version_replied : Option (Option String) → Event
  guard_fired : Event
  rested : Event

abbrev pub is_internet : Awaited → Bool
is_internet internet = true
is_internet update = false
is_internet nothing = false

abbrev pub is_update : Awaited → Bool
is_update internet = false
is_update update = true
is_update nothing = false

abbrev pub take_reply : Option (Option String) → Install → ℕ → Install
take_reply r i zero = i
take_reply r i (suc n) = version_reply r (record i { polls = n })

-- An event happens where what it needs is there. The timers that bring the page back to rest may
-- fire at any time after the polls have ended.
unfoldable pub step : Event → Install → Install
unfolding receive internet_reply update_reply start_reconnecting version_reply give_up rest
step (message m) i = receive m i
step (internet_replied r) i = if is_internet i.awaited then internet_reply r i else i
step (update_replied r) i = if is_update i.awaited then update_reply r i else i
step start_fired i = if i.start_timer then start_reconnecting i else i
step ticked i = if i.poll_interval then record i { polls = suc i.polls } else i
step (version_replied r) i = take_reply r i i.polls
step guard_fired i = if i.guard_timer then give_up i else i
step rested i = if i.reconnected then record i { page = rest i.page } else i

abbrev pub run : List Event → Install → Install
run [] i = i
run (e ∷ es) i = run es (step e i)
