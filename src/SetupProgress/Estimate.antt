-- ===== src/SetupProgress/Estimate.antt =====
-- web/src/components/setup/SetupProgress.tsx: the estimate of the progress and the lines.
use sentry_usb.Base.{
  ℕ, ◌+◌, Bool, true, false, ◌&&◌, ◌||◌, Option, none, some, List, [], ◌∷◌, String, ltb, leb, ◌==◌,
  if◌then◌else◌, any, max,
}
use sentry_usb.Base.Text.{includes, is_empty, has_prefix}
use Prim.Native.Char.{Char, code}
use Prim.Native.String.{[], ◌∷◌}

-- The patterns of `STAGE_MARKERS`: one of some texts, two texts on one line in this order, or one
-- of some texts in any case.
pub data Pattern : Type 0 where
  one_of : List String → Pattern
  in_order : String → String → Pattern
  any_case : List String → Pattern

-- `stage_markers`, with the texts for the case-blind pattern in lower case
abbrev pub stage_markers : List (Pattern × ℕ)
stage_markers =
    (one_of ("SENTRYUSB_SETUP_STARTED" ∷ "rc.local" ∷ []), 5)
    ∷ (one_of ("Downloading common runtime" ∷ []), 10)
    ∷ (one_of ("Updating package index" ∷ []), 20)
    ∷ (one_of ("Upgrading installed packages" ∷ []), 30)
    ∷ (one_of ("cmdline.txt" ∷ []), 40)
    ∷ (one_of ("Configuring the hostname" ∷ []), 45)
    ∷ (in_order "Mounting" "backing", 50)
    ∷ (one_of ("Creating backing disk" ∷ []), 60)
    ∷ (one_of ("create-backingfiles" ∷ []), 65)
    ∷ (one_of ("archiveloop" ∷ "archive" ∷ []), 75)
    ∷ (one_of ("calling configure.sh" ∷ []), 80)
    ∷ (one_of ("configure-web.sh" ∷ "configure-ssh.sh" ∷ []), 85)
    ∷ (one_of ("make-root-fs-readonly:" ∷ []), 90)
    ∷ (one_of ("Running post-setup tasks" ∷ []), 95)
    ∷ (one_of ("All done." ∷ []), 98)
    ∷ (any_case ("setup_finished" ∷ "setup completed" ∷ []), 100)
    ∷ []

-- a character against one of a pattern in lower case, in any case of the ASCII letters
abbrev pub same_letter : Char → Char → Bool
same_letter p d = code p == code d || (leb 97 (code p) && leb (code p) 122 && code p == code d + 32)

unfoldable pub has_prefix_any_case : String → String → Bool
has_prefix_any_case [] s = true
has_prefix_any_case (c ∷ p) [] = false
has_prefix_any_case (c ∷ p) (d ∷ s) = same_letter c d && has_prefix_any_case p s

unfoldable pub includes_any_case : String → String → Bool
unfolding has_prefix_any_case
includes_any_case needle [] = is_empty needle
includes_any_case needle (d ∷ s) = has_prefix_any_case needle (d ∷ s) || includes_any_case needle s

-- the line terminators, which `.` does not match
abbrev pub ends_line : Char → Bool
ends_line c = code c == 10 || code c == 13 || code c == 0x2028 || code c == 0x2029

-- `.*needle` from here on
unfoldable pub on_line : String → String → Bool
unfolding has_prefix
on_line needle [] = is_empty needle
on_line needle (d ∷ s) =
    let rest = on_line needle s in
    if has_prefix needle (d ∷ s) then true else if ends_line d then false else rest

-- what stands behind a prefix
abbrev pub behind : String → String → Option String
behind [] s = some s
behind (c ∷ p) [] = none
behind (c ∷ p) (d ∷ s) = let rest = behind p s in if code c == code d then rest else none

abbrev pub then_on_line : String → Option String → Bool
unfolding on_line
then_on_line needle none = false
then_on_line needle (some s) = on_line needle s

unfoldable pub both_on_line : String → String → String → Bool
unfolding on_line
both_on_line first second [] = then_on_line second (behind first [])
both_on_line first second (d ∷ s) =
    then_on_line second (behind first (d ∷ s)) || both_on_line first second s

-- `pattern.test(logText)`
unfoldable pub matches : Pattern → String → Bool
unfolding includes both_on_line includes_any_case
matches (one_of needles) log_text = any (λ n. includes n log_text) needles
matches (in_order first second) log_text = both_on_line first second log_text
matches (any_case needles) log_text = any (λ n. includes_any_case n log_text) needles

-- The loop of `estimateProgress`.
unfoldable pub highest_marker : List (Pattern × ℕ) → ℕ → String → ℕ
unfolding matches
highest_marker [] highest log_text = highest
highest_marker ((pattern, pct) ∷ markers) highest log_text =
    highest_marker markers (if matches pattern log_text then max highest pct else highest) log_text

unfoldable pub estimate_progress : String → ℕ
unfolding highest_marker
estimate_progress log_text = highest_marker stage_markers 0 log_text

pub data SetupPhase : Type 0 where
  applying running rebooting finalizing complete error : SetupPhase

unfoldable pub get_active_step_index : SetupPhase → ℕ → ℕ
get_active_step_index complete progress = 4
get_active_step_index finalizing progress = 3
get_active_step_index rebooting progress = 3
get_active_step_index running progress = if ltb progress 15 then 1 else 2
get_active_step_index applying progress = 0
get_active_step_index error progress = 0
