-- ===== src/Wizard/Validation.antt =====
-- web/src/components/setup/SetupWizard.tsx: the errors of the steps (`networkError` to
-- `getStepError`). The form is a dictionary of texts.
use Prim.Native.String
use sentry_usb.Base.{
  ℕ, Bool, false, ◌&&◌, not, Option, none, some, List, [], ◌∷◌, String, str_eq, ltb, ◌==◌,
  if◌then◌else◌, any,
}
use sentry_usb.Base.Dict.{get}
use sentry_usb.Base.Text.{is_empty, trim, utf16_length, truthy}

abbrev pub FormData : Type 0
FormData = List (String × String)

-- `data.K?.trim()` as a condition
unfoldable pub filled : FormData → String → Bool
filled form k = elim (get k form) [ none ↦ false | some v ↦ not (is_empty (trim v)) ]

abbrev pub or_default : Option String → String → String
or_default none d = d
or_default (some v) d = v

unfoldable pub network_error : FormData → Option String
network_error form =
    if truthy (get "AP_SSID" form) && ltb (utf16_length (or_default (get "AP_PASS" form) "")) 8
    then some "WiFi Access Point password must be at least 8 characters."
    else none

unfoldable pub storage_error : FormData → Option String
storage_error form = none

-- `archiveError` once it has read the system
unfoldable pub archive_error_of : String → FormData → Option String
archive_error_of system form =
    if str_eq system "none"
    then none
    else if str_eq system "cifs"
    then (if not (filled form "ARCHIVE_SERVER")
        then some "Archive Server is required."
        else if not (filled form "SHARE_NAME")
        then some "Share Name is required."
        else if not (filled form "SHARE_USER")
        then some "Username is required."
        else if not (filled form "SHARE_PASSWORD")
        then some "Password is required."
        else none)
    else if str_eq system "rsync"
    then (if not (filled form "RSYNC_SERVER")
        then some "Server is required."
        else if not (filled form "RSYNC_USER")
        then some "Username is required."
        else if not (filled form "RSYNC_PATH")
        then some "Remote Path is required."
        else none)
    else if str_eq system "rclone"
    then (if not (filled form "RCLONE_DRIVE")
        then some "Remote Name is required."
        else if not (filled form "RCLONE_PATH")
        then some "Remote Path is required."
        else none)
    else if str_eq system "nfs"
    then (if not (filled form "ARCHIVE_SERVER")
        then some "NFS Server is required."
        else if not (filled form "SHARE_NAME")
        then some "Export Path is required."
        else none)
    else none

unfoldable pub archive_error : FormData → Option String
archive_error form = archive_error_of (or_default (get "ARCHIVE_SYSTEM" form) "cifs") form

abbrev pub or_else : Option String → String → String
or_else none d = d
or_else (some v) d = if is_empty v then d else v

-- The method: as chosen, or guessed from the first of its fields that is set.
unfoldable pub keep_awake_method : FormData → String
keep_awake_method form = or_else (get "_KEEP_AWAKE_METHOD" form) (
    if truthy (get "TESLA_BLE_VIN" form)
    then "ble"
    else if truthy (get "TESLAFI_API_TOKEN" form)
    then "teslafi"
    else if truthy (get "TESSIE_API_TOKEN" form)
    then "tessie"
    else if truthy (get "KEEP_AWAKE_WEBHOOK_URL" form)
    then "webhook"
    else "none")

unfoldable pub keep_awake_error : FormData → Option String
keep_awake_error form =
    let method = keep_awake_method form in
    if str_eq method "none"
    then none
    else if str_eq method "ble" && not (filled form "TESLA_BLE_VIN")
    then some "Vehicle VIN is required for Bluetooth LE."
    else if str_eq method "teslafi" && not (filled form "TESLAFI_API_TOKEN")
    then some "TeslaFi API Token is required."
    else if str_eq method "tessie" && not (filled form "TESSIE_API_TOKEN")
    then some "Tessie API Token is required."
    else if str_eq method "tessie" && not (filled form "TESSIE_VIN")
    then some "Vehicle VIN is required for Tessie."
    else if str_eq method "webhook" && not (filled form "KEEP_AWAKE_WEBHOOK_URL")
    then some "Webhook URL is required."
    else if not (truthy (get "SENTRY_CASE" form))
    then some "Sentry Mode behavior must be selected."
    else none

pub record Provider : Type 0 where
  pub label : String
  pub enable_field : String
  pub fields : List String

abbrev pub required_per_provider : List Provider
required_per_provider =
    record {
      label = "Pushover";
      enable_field = "PUSHOVER_ENABLED";
      fields = "PUSHOVER_USER_KEY" ∷ "PUSHOVER_APP_KEY" ∷ [];
    }
    ∷ record {
      label = "Gotify";
      enable_field = "GOTIFY_ENABLED";
      fields = "GOTIFY_DOMAIN" ∷ "GOTIFY_APP_TOKEN" ∷ [];
    }
    ∷ record {
      label = "Discord";
      enable_field = "DISCORD_ENABLED";
      fields = "DISCORD_WEBHOOK_URL" ∷ [];
    }
    ∷ record {
      label = "Telegram";
      enable_field = "TELEGRAM_ENABLED";
      fields = "TELEGRAM_CHAT_ID" ∷ "TELEGRAM_BOT_TOKEN" ∷ [];
    }
    ∷ record {
      label = "IFTTT";
      enable_field = "IFTTT_ENABLED";
      fields = "IFTTT_EVENT_NAME" ∷ "IFTTT_KEY" ∷ [];
    }
    ∷ record { label = "Slack"; enable_field = "SLACK_ENABLED"; fields = "SLACK_WEBHOOK_URL" ∷ [] }
    ∷ record {
      label = "Signal";
      enable_field = "SIGNAL_ENABLED";
      fields = "SIGNAL_URL" ∷ "SIGNAL_FROM_NUM" ∷ "SIGNAL_TO_NUM" ∷ [];
    }
    ∷ record {
      label = "Matrix";
      enable_field = "MATRIX_ENABLED";
      fields = "MATRIX_SERVER_URL" ∷ "MATRIX_USERNAME" ∷ "MATRIX_PASSWORD" ∷ "MATRIX_ROOM" ∷ [];
    }
    ∷ record {
      label = "AWS SNS";
      enable_field = "SNS_ENABLED";
      fields =
          "AWS_REGION" ∷ "AWS_ACCESS_KEY_ID" ∷ "AWS_SECRET_ACCESS_KEY" ∷ "AWS_SNS_TOPIC_ARN" ∷ [];
    }
    ∷ record { label = "Webhook"; enable_field = "WEBHOOK_ENABLED"; fields = "WEBHOOK_URL" ∷ [] }
    ∷ []

-- `data[k] === v`
abbrev pub holds : FormData → String → String → Bool
holds form k v = elim (get k form) [ none ↦ false | some w ↦ str_eq w v ]

-- the loop over the providers
unfoldable pub provider_error : FormData → List Provider → Option String
provider_error form [] = none
provider_error form (p ∷ ps) =
    if holds form p.enable_field "true" && any (λ f. not (filled form f)) p.fields
    then some (String.◌++◌ "Complete all required fields for " (String.◌++◌ p.label "."))
    else provider_error form ps

unfoldable pub notifications_error : FormData → Option String
unfolding provider_error
notifications_error form = provider_error form required_per_provider

unfoldable pub security_error : FormData → Option String
security_error form =
    if filled form "WEB_USERNAME" && not (filled form "WEB_PASSWORD")
    then some "Web Password is required when a Web Username is set."
    else none

unfoldable pub get_step_error : ℕ → FormData → Option String
get_step_error idx form =
    if idx == 2
    then network_error form
    else if idx == 3
    then storage_error form
    else if idx == 4
    then archive_error form
    else if idx == 5
    then keep_awake_error form
    else if idx == 6
    then notifications_error form
    else if idx == 7
    then security_error form
    else none
