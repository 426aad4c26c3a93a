-- ===== src/Settings/Privacy.antt =====
-- web/src/components/settings/PrivacyCard.tsx and the health check of web/src/pages/Settings.tsx.
use sentry_usb.Base.{
  Bool, true, false, Option, none, some, List, [], ◌∷◌, String, str_eq, any, if◌then◌else◌,
}
use sentry_usb.Base.Text.{concat}
use sentry_usb.Base.Dict.{put}

pub record PrivacyCard : Type 0 where
  pub choice : Option Bool
  pub saving : Bool
  pub error : Option String
  pub loaded : Bool

unfoldable pub mount : PrivacyCard
mount = record { choice = none; saving = false; error = none; loaded = false }

-- the reply with the stored value (outer `none`: the request failed)
abbrev choice_of : Option String → Option Bool → Option Bool
choice_of none old = old
choice_of (some t) old =
    if str_eq t "true" then some true else if str_eq t "false" then some false else old

unfoldable pub load_reply : Option (Option String) → PrivacyCard → PrivacyCard
load_reply none s = record s { loaded = true }
load_reply (some value) s = record s { choice = choice_of value s.choice; loaded = true }

-- `persist`: its request, and the text of its failure (`none`: it was accepted)
unfoldable pub persist_begin : PrivacyCard → PrivacyCard
persist_begin s = record s { saving = true; error = none }

unfoldable pub persist_reply : Bool → Option String → PrivacyCard → PrivacyCard
unfolding concat
persist_reply value none s = record s { choice = some value; saving = false }
persist_reply value (some text) s = record s {
  error = some (concat "Couldn't save: " text);
  saving = false;
}

-- `HealthCheckButton`
pub data ItemStatus : Type 0 where
  passed warned failed : ItemStatus

pub record HealthCategory : Type 0 where
  pub name : String
  pub items : List ItemStatus

pub record HealthCheck : Type 0 where
  pub is_loading : Bool
  pub report : Option (List HealthCategory)
  pub expanded : List (String × Bool)

abbrev is_open : ItemStatus → Bool
is_open passed = false
is_open warned = true
is_open failed = true

unfoldable pub expand : List HealthCategory → List (String × Bool) → List (String × Bool)
unfolding put
expand [] opened = opened
expand (c ∷ cs) opened = expand cs (if any is_open c.items then put c.name true opened else opened)

unfoldable pub check_begin : HealthCheck → HealthCheck
check_begin s = record s { is_loading = true; report = none }

-- the reply (`none`: it failed)
unfoldable pub check_reply : Option (List HealthCategory) → HealthCheck → HealthCheck
unfolding expand
check_reply none s = record s { report = none; is_loading = false }
check_reply (some categories) s = record s {
  report = some categories;
  expanded = expand categories [];
  is_loading = false;
}
