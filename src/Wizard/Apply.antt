-- ===== src/Wizard/Apply.antt =====
-- web/src/components/setup/SetupWizard.tsx: the form, and the handlers that send it. `doApply` is
-- split at the waits for the answers that can make it fail. The conversion of a temperature, `String(Math.round(parseFloat(v) *
-- 1000))`, is a parameter: `none` where `parseFloat` gives NaN.
use Prim.Native.String
use sentry_usb.Base.{
  ℕ, zero, suc, Bool, true, false, ◌&&◌, ◌||◌, not, Option, none, some, List, [], ◌∷◌, map, String,
  str_eq, if◌then◌else◌, any, filter_by,
}
use sentry_usb.Base.Dict.{get, put, merge, remove}
use sentry_usb.Base.Text.{is_empty, starts_with_char, includes, all_digits}
use sentry_usb.Wizard.Validation.{FormData, or_default, or_else, holds, get_step_error}
use sentry_usb.Wizard.Changes.{DestructiveChange, detect_destructive_changes}
use sentry_usb.Wizard.Phases.{Phase, wizard, applying, running}

pub data Request : Type 0 where
  put_config : FormData → Request
  put_backup_location : String → Request
  run_setup : Request

pub record Wizard : Type 0 where
  pub current_step : ℕ
  pub form : FormData
  pub saving : Bool
  pub save_error : Option String
  pub phase : Phase
  pub original : Option FormData
  pub warning : Option (List DestructiveChange)
  pub is_restore_flow : Bool
  -- the requests made, the latest first
  pub sent : List Request

abbrev pub defaults : FormData
defaults =
    ("CAM_SIZE", "40")
    ∷ ("ARCHIVE_SYSTEM", "cifs")
    ∷ ("TEMPERATURE_UNIT", "C")
    ∷ ("ARCHIVE_SAVEDCLIPS", "true")
    ∷ ("ARCHIVE_SENTRYCLIPS", "true")
    ∷ ("ARCHIVE_RECENTCLIPS", "true")
    ∷ ("ARCHIVE_TRACKMODECLIPS", "true")
    ∷ ("DRIVE_MAP_ENABLED", "true")
    ∷ ("DRIVE_MAP_WHILE_AWAY", "true")
    ∷ ("DRIVE_MAP_UNIT", "mi")
    ∷ ("TEMPERATURE_POSTARCHIVE", "true")
    ∷ ("USE_EXFAT", "true")
    ∷ ("RTC_BATTERY_ENABLED", "false")
    ∷ ("RTC_TRICKLE_CHARGE", "false")
    ∷ []

unfoldable pub mount : Option FormData → Wizard
mount initial_data =
    let merged = merge defaults (elim initial_data [ none ↦ [] | some f ↦ f ]) in
    record {
      current_step = 0;
      form = merged;
      saving = false;
      save_error = none;
      phase = wizard;
      original = elim initial_data [ none ↦ none | some f ↦ some merged ];
      warning = none;
      is_restore_flow = false;
      sent = [];
    }

unfoldable pub handle_change : String → String → Wizard → Wizard
handle_change key value w = record w { form = put key value w.form }

unfoldable pub handle_batch_change : FormData → Wizard → Wizard
handle_batch_change updates w =
    let v = record w { form = merge w.form updates } in
    if holds updates "_restore_baseline" "true"
    then record v {
      original =
          some (
            merge (elim w.original [ none ↦ [] | some o ↦ o ])
              (remove "_restore_baseline" updates));
      is_restore_flow = true;
    }
    else v

abbrev pub size_fields : List String
size_fields = "CAM_SIZE" ∷ "MUSIC_SIZE" ∷ "LIGHTSHOW_SIZE" ∷ "BOOMBOX_SIZE" ∷ []

module _ (round_scaled : String → Option String) where
  -- the value of a field as it is sent
  unfoldable pub sent_value : String → String → String
  sent_value k v =
      if any (λ f. str_eq f k) size_fields && (not (is_empty v) && all_digits v)
      then String.◌++◌ v "G"
      else if (str_eq k "TEMPERATURE_WARNING" || str_eq k "TEMPERATURE_CAUTION")
          && (not (is_empty v) && not (includes "000" v))
      then elim (round_scaled v) [ none ↦ v | some n ↦ n ]
      else v

  abbrev pub is_sent : String × String → Bool
  is_sent (k, v) = not (starts_with_char b'_' k) && not (is_empty v)

  unfoldable pub config_data : FormData → FormData
  unfolding sent_value
  config_data form = map (λ e. (e.0, sent_value e.0 e.1)) (filter_by is_sent form)

  -- `doApply` up to its first wait
  unfoldable pub apply_begin : FormData → Wizard → Wizard
  apply_begin form w = record w {
    saving = true;
    save_error = none;
    sent = put_config (config_data form) ∷ w.sent;
  }

-- the answer to the configuration: `res.ok` or not, or an exception with its message, if it has one
pub data SaveReply : Type 0 where
  saved save_refused : SaveReply
  save_thrown : Option String → SaveReply

-- the answer to the start of the setup, with the server's `error`
pub data RunReply : Type 0 where
  started : RunReply
  run_refused : Option String → RunReply
  run_thrown : Option String → RunReply

abbrev pub failed : String → Wizard → Wizard
failed message w = record w { save_error = some message; phase = wizard; saving = false }

-- from the first wait to the second, and from there to the end
unfoldable pub apply_saved : SaveReply → FormData → Wizard → Wizard
apply_saved save_refused form w = failed "Failed to save configuration" w
apply_saved (save_thrown m) form w = failed (or_default m "Unknown error") w
apply_saved saved form w = elim (get "_BACKUP_LOCATION" form) [
  | none ↦ record w { phase = applying; sent = run_setup ∷ w.sent }
  | some l ↦
      if is_empty l
      then record w { phase = applying; sent = run_setup ∷ w.sent }
      else record w { phase = applying; sent = run_setup ∷ put_backup_location l ∷ w.sent }
]

unfoldable pub apply_started : RunReply → Wizard → Wizard
apply_started started w = record w { phase = running; saving = false }
apply_started (run_refused m) w = failed (or_else m "Failed to start setup") w
apply_started (run_thrown m) w = failed (or_default m "Unknown error") w

-- the search for the first step with an error, from a step on
unfoldable pub first_invalid_from : FormData → ℕ → ℕ → Option ℕ
first_invalid_from form idx zero = none
first_invalid_from form idx (suc left) = elim (get_step_error idx form) [
  | none ↦ first_invalid_from form (suc idx) left
  | some message ↦ some idx
]

-- There are ten steps.
unfoldable pub first_invalid : FormData → Option ℕ
unfolding first_invalid_from
first_invalid form = first_invalid_from form 0 10

module _ (round_scaled : String → Option String) where
  unfoldable pub handle_apply : Wizard → Wizard
  unfolding apply_begin
  handle_apply w = elim (first_invalid w.form) [
    | some i ↦ record w { current_step = i; save_error = get_step_error i w.form }
    | none ↦ elim (detect_destructive_changes w.form w.original) [
      | [] ↦ apply_begin round_scaled w.form w
      | c ∷ cs ↦ record w { warning = some (c ∷ cs) }
    ]
  ]

  unfoldable pub handle_apply_all : Wizard → Wizard
  unfolding apply_begin
  handle_apply_all w = apply_begin round_scaled w.form (record w { warning = none })

-- the loop of `handleSkipDestructive`
unfoldable pub safe_data : FormData → FormData → List DestructiveChange → FormData
safe_data original safe [] = safe
safe_data original safe (c ∷ cs) =
    safe_data original
      (if str_eq c.key "USE_EXFAT"
        then put "USE_EXFAT" (or_default (get "USE_EXFAT" original) "true") safe
        else put c.key (or_default (get c.key original) "") safe)
      cs

module _ (round_scaled : String → Option String) where
  unfoldable pub handle_skip_destructive : Wizard → Wizard
  unfolding apply_begin
  handle_skip_destructive w = elim w.warning [
    | none ↦ w
    | some changes ↦ elim w.original [
      | none ↦ w
      | some original ↦
          apply_begin round_scaled (safe_data original w.form changes) (record w { warning = none })
    ]
  ]
