-- ===== src/Settings/Update.antt =====
-- web/src/pages/Settings.tsx: the updates of the page. What a request comes to is an argument; an
-- offer is `none` where its field is missing or not available.
use sentry_usb.Base.{
  Bool, true, false, not, ◌||◌, Option, none, some, String, str_eq, if◌then◌else◌,
}
use sentry_usb.Base.Text.{is_empty, truthy, concat}
use sentry_usb.Base.Exec.{Answer, Done, Exec, ask, try_catch, finally_do, modify, ◌>>=◌, with_text}

pub data UpdateStatus : Type 0 where
  idle checking_internet checking downloading installing : UpdateStatus
  updating_scripts restarting reconnecting done error : UpdateStatus

pub record Offer : Type 0 where
  pub version : String
  pub release_url : String
  pub release_notes : String

-- The reply to a check, and the part of it that the page reads when it is opened.
pub record CheckData : Type 0 where
  pub error_text : Option String
  pub stable : Option Offer
  pub latest : Option Offer
  pub prerelease : Option Offer
  pub revert_stable : Option Offer
  pub current_version : Option String

pub record Update : Type 0 where
  pub update_status : UpdateStatus
  pub update_error : Option String
  pub update_message : Option String
  pub is_checking_update : Bool
  pub version : Option String
  pub stable_update : Option Offer
  pub prerelease_update : Option Offer
  pub revert_stable : Option Offer
  pub auto_update_enabled : Bool
  pub include_prerelease : Bool

unfoldable pub mount : Update
mount = record {
  update_status = idle;
  update_error = none;
  update_message = none;
  is_checking_update = false;
  version = none;
  stable_update = none;
  prerelease_update = none;
  revert_stable = none;
  auto_update_enabled = true;
  include_prerelease = false;
}

-- `a || b`
abbrev pub or_text : Option String → String → String
or_text none text = text
or_text (some e) text = if is_empty e then text else e

-- the effect that reads the version (`none`: the request failed)
unfoldable pub version_effect : Option (Option String) → Update → Update
version_effect none s = record s { version = some "unknown" }
version_effect (some v) s = record s { version = some (or_text v "unknown") }

abbrev pub or_else : Option Offer → Option Offer → Option Offer
or_else none other = other
or_else (some o) other = some o

abbrev pub is_some : Option Offer → Bool
is_some none = false
is_some (some o) = true

-- The offers of a reply are written where they are there.
unfoldable pub show_offers : CheckData → Update → Update
show_offers d s = record s {
  stable_update = or_else (or_else d.stable d.latest) s.stable_update;
  prerelease_update = or_else d.prerelease s.prerelease_update;
  revert_stable = or_else d.revert_stable s.revert_stable;
}

-- the replies of the effect at the opening of the page (`none`: the request failed)
unfoldable pub status_reply : Option CheckData → Update → Update
unfolding show_offers
status_reply none s = s
status_reply (some d) s = show_offers d s

abbrev pub is : String → Option String → Bool
is text none = false
is text (some t) = str_eq t text

unfoldable pub auto_update_reply : Option String → Update → Update
auto_update_reply value s = record s { auto_update_enabled = not (is "disabled" value) }

unfoldable pub channel_reply : Option String → Update → Update
channel_reply value s = record s { include_prerelease = is "prerelease" value }

abbrev pub found_any : CheckData → Bool
found_any d =
    is_some d.stable || is_some d.latest || is_some d.prerelease || is_some d.revert_stable

abbrev pub shown_version : Option String → Option String → String
shown_version current own = or_text current (or_text own "null")

-- The version that is shown is that of the render in which the handler was made.
unfoldable pub up_to_date : Option String → CheckData → Update → Update
unfolding concat
up_to_date own d s = record s {
  update_status = done;
  update_message =
      some (concat "You're up to date (" (concat (shown_version d.current_version own) ")"));
}

unfoldable pub show_check : Option String → CheckData → Update → Update
unfolding show_offers up_to_date
show_check own d s =
    if truthy d.error_text
    then record s { update_error = d.error_text }
    else if found_any d
    then show_offers d s
    else up_to_date own d (show_offers d s)

unfoldable pub start_check : Update → Update
start_check s = record s {
  is_checking_update = true;
  stable_update = none;
  prerelease_update = none;
  revert_stable = none;
  update_error = none;
}

abbrev pub check_url : Bool → Bool → String
check_url include_prerelease one_time =
    if include_prerelease || one_time
    then "/api/system/check-update?include_prerelease=true"
    else "/api/system/check-update"

unfoldable pub check_body : (String → Answer CheckData) → Bool → Update → Exec Update Done
unfolding show_check ask modify try_catch ◌>>=◌
check_body server one_time s = do
  found ←
      ask
        (with_text "Failed to check for updates" (server (check_url s.include_prerelease one_time)))
  modify (show_check s.version found)

-- the state after `handleCheckForUpdate`
unfoldable pub handle_check_for_update : (String → Answer CheckData) → Bool → Update → Update
unfolding check_body start_check finally_do try_catch modify
handle_check_for_update server one_time s =
    let ended =
      finally_do
        (try_catch (check_body server one_time s)
          (λ text. modify (λ t. record t { update_error = some text })))
        (λ t. record t { is_checking_update = false }) (start_check s) in
    ended.1

-- the timers of four and of six seconds
unfoldable pub rest : Update → Update
rest s = record s { update_status = idle; update_message = none }
