-- ===== src/Wizard/Examples.antt =====
-- web/src/components/setup/SetupWizard.tsx: forms, and the theorems at them.
use sentry_usb.Base.{
  ℕ, ◌<◌, ◌≡◌, ◌≢◌, ◌⊎◌, ◌↔◌, refl, true, false, Option, none, some, List, [], ◌∷◌, String, All,
  arith, str_eq, eq_iff,
}
use sentry_usb.Base.Dict.{get, put, merge}
use sentry_usb.Base.Text.{trim}
use sentry_usb.Wizard.Validation.{
  FormData, or_default, filled, network_error, storage_error, archive_error, archive_error_of,
  get_step_error,
}
use sentry_usb.Wizard.Required.{IsFilled, archive_fields, archive_error-eq-none_iff}
use sentry_usb.Wizard.Changes.{
  destructive_size_keys, normalize_size_value, size_changes, detect_destructive_changes,
}
use sentry_usb.Wizard.Apply.{
  Wizard, put_config, config_data, size_fields, safe_data, mount, handle_apply, first_invalid,
  handle_skip_destructive,
}
use sentry_usb.Wizard.Guarded.{handle_apply-cases}
use sentry_usb.Wizard.Revert.{names_row, handle_skip_destructive-safe}
use sentry_usb.Wizard.Saved.{with_unit, config_data-sizes}
use sentry_usb.Wizard.Phases.{
  running, Event, apply_saved, apply_started, status_replied, status_failed, final_replied,
  final_failed, step, history,
}
use sentry_usb.Wizard.Completion.{then_came_back, complete-then_came_back}

abbrev no_conversion : String → Option String
no_conversion s = none

abbrev nfs : FormData
nfs = ("ARCHIVE_SYSTEM", "nfs") ∷ ("ARCHIVE_SERVER", "nas") ∷ ("SHARE_NAME", "  ") ∷ []

nfs_error : archive_error nfs ≡ some "Export Path is required."
unfolding archive_error archive_error_of filled trim get
nfs_error = refl

archive_error-eq-none_iff_example :
    (archive_error nfs ≡ none)
    ↔ All (IsFilled nfs) (archive_fields (or_default (get "ARCHIVE_SYSTEM" nfs) "cifs"))
archive_error-eq-none_iff_example = archive_error-eq-none_iff nfs

abbrev opened : Wizard
opened = mount (some nfs)

handle_apply_moves : (handle_apply no_conversion opened).current_step ≡ 4
unfolding handle_apply first_invalid get_step_error mount get put merge network_error storage_error
    archive_error archive_error_of filled trim
handle_apply_moves = refl

handle_apply-cases_example :
    ((i : ℕ) × (get_step_error i opened.form ≢ none)
      × ((j : ℕ) → j < i → get_step_error j opened.form ≡ none)
      × (handle_apply no_conversion opened
          ≡ record opened { current_step = i; save_error = get_step_error i opened.form }))
    ⊎ (((j : ℕ) → get_step_error j opened.form ≡ none)
        × (detect_destructive_changes opened.form opened.original ≢ [])
        × ((handle_apply no_conversion opened).sent ≡ opened.sent)
        × ((handle_apply no_conversion opened).warning
            ≡ some (detect_destructive_changes opened.form opened.original)))
    ⊎ (((j : ℕ) → get_step_error j opened.form ≡ none)
        × (detect_destructive_changes opened.form opened.original ≡ [])
        × ((handle_apply no_conversion opened).sent
            ≡ put_config (config_data no_conversion opened.form) ∷ opened.sent))
handle_apply-cases_example = handle_apply-cases no_conversion opened

text_ne : (a b : String) → str_eq a b ≡ false → a ≢ b
text_ne a b h e = ground (arith, eq_iff a b)

abbrev old_config : FormData
old_config = ("CAM_SIZE", "40G") ∷ ("USE_EXFAT", "true") ∷ []

-- the user asked for a larger drive, and the warning is shown
abbrev larger : Wizard
larger = record (mount none) {
  form = ("CAM_SIZE", "64") ∷ ("USE_EXFAT", "true") ∷ ("NOTE", "x") ∷ [];
  original = some old_config;
  warning = some (
      detect_destructive_changes (("CAM_SIZE", "64") ∷ ("USE_EXFAT", "true") ∷ ("NOTE", "x") ∷ [])
        (some old_config));
}

handle_skip_destructive-safe_example :
    let safe =
      safe_data old_config larger.form (detect_destructive_changes larger.form (some old_config)) in
    ((handle_skip_destructive no_conversion larger).sent
      ≡ put_config (config_data no_conversion safe) ∷ larger.sent)
    × (detect_destructive_changes safe (some old_config) ≡ [])
    × ((j : String) → names_row j destructive_size_keys ≡ false → get j safe ≡ get j larger.form)
unfolding get
handle_skip_destructive-safe_example =
    handle_skip_destructive-safe no_conversion larger old_config refl refl refl

-- the file system and the size were changed together
abbrev both : Wizard
both = record larger {
  form = ("CAM_SIZE", "64") ∷ ("USE_EXFAT", "false") ∷ [];
  warning = some (
      detect_destructive_changes (("CAM_SIZE", "64") ∷ ("USE_EXFAT", "false") ∷ [])
        (some old_config));
}

-- that change of size is still there
still_changed : size_changes both.form old_config destructive_size_keys ≢ []
unfolding size_changes normalize_size_value get trim
still_changed e = cc

config_data-sizes_example :
    All
      (λ k. get k (config_data no_conversion larger.form) ≡ with_unit (get k larger.form))
      size_fields
    × (size_changes (config_data no_conversion larger.form) larger.form destructive_size_keys ≡ [])
unfolding get
config_data-sizes_example = config_data-sizes no_conversion larger.form refl

-- the first poll of the last phase comes before the reboot, a reply of an earlier poll after it
abbrev finished_setup : List Event
finished_setup =
    final_replied 0 true
    ∷ status_failed running
    ∷ final_failed 0
    ∷ final_replied 0 true
    ∷ status_replied running true false
    ∷ apply_started
    ∷ apply_saved
    ∷ []

complete-then_came_back_example : then_came_back finished_setup ≡ true
unfolding history step
complete-then_came_back_example = complete-then_came_back finished_setup refl
