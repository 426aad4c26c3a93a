-- ===== src/Wizard/Phases.antt =====
-- web/src/components/setup/SetupWizard.tsx: the phases of the setup, as the apply handler, the polls
-- of the setup status and the WebSocket messages move them. The message shown beside is left out.
use sentry_usb.Base.{ℕ, suc, Bool, true, false, ◌&&◌, not, List, [], ◌∷◌, if◌then◌else◌, ◌==◌, ltb}

pub data Phase : Type 0 where
  wizard applying running rebooting finalizing complete error : Phase

abbrev pub is_running : Phase → Bool
is_running running = true
is_running _ = false

abbrev pub is_rebooting : Phase → Bool
is_rebooting rebooting = true
is_rebooting _ = false

-- The phase shown, and the effect of the phase "finalizing": how often it has run, and the
-- `wentDown` of each run, which a reply that comes after the run's clean-up still reads and writes.
pub record Progress : Type 0 where
  pub phase : Phase
  pub runs : ℕ
  pub went_down : ℕ → Bool

abbrev pub set_flag : ℕ → Bool → (ℕ → Bool) → ℕ → Bool
set_flag i b flags j = if j == i then b else flags j

-- `setPhase`. The effect runs anew, with `wentDown = false`, when the phase becomes "finalizing".
unfoldable pub set_phase : Phase → Progress → Progress
set_phase finalizing p = elim p.phase [
  | finalizing ↦ p
  | _ ↦ record {
    phase = finalizing;
    runs = suc p.runs;
    went_down = set_flag p.runs false p.went_down;
  }
]
set_phase q p = record p { phase = q }

-- A poll of the status while "running" or "rebooting" ends; `seen` is the phase when its effect
-- ran. The reply has `setup_finished` and `setup_running`.
unfoldable pub status_reply : Phase → Bool → Bool → Progress → Progress
unfolding set_phase
status_reply seen setup_finished setup_running p =
    if setup_finished
    then set_phase finalizing p
    else if setup_running && is_rebooting seen
    then set_phase running p
    else if not setup_running && is_running seen
    then set_phase rebooting p
    else p

unfoldable pub status_unreachable : Phase → Progress → Progress
unfolding set_phase
status_unreachable seen p = if is_rebooting seen then p else set_phase rebooting p

-- A poll of a run of the effect of "finalizing" ends: an answer with its `res.ok`, or an exception.
unfoldable pub final_reply : ℕ → Bool → Progress → Progress
unfolding set_phase
final_reply i ok p = if ok && p.went_down i then set_phase complete p else p

unfoldable pub final_unreachable : ℕ → Progress → Progress
final_unreachable i p = record p { went_down = set_flag i true p.went_down }

-- `d.status` of a "setup_status" message
pub data SetupStatus : Type 0 where
  starting downloading_scripts run complete_status rebooting_status error_status other : SetupStatus

unfoldable pub on_setup_status : SetupStatus → Progress → Progress
unfolding set_phase
on_setup_status starting p = set_phase running p
on_setup_status downloading_scripts p = set_phase running p
on_setup_status run p = p
on_setup_status complete_status p = set_phase finalizing p
on_setup_status rebooting_status p = set_phase rebooting p
on_setup_status error_status p = set_phase error p
on_setup_status other p = p

-- What can happen. `doApply` sets the phase three times; between these, as the server answers it,
-- anything else can come. A reply belongs to the run of the effect that asked for it, and can come
-- after that has been cleaned up, whatever the phase is by then. A message comes only while the
-- socket of the phases "running", "applying" and "rebooting" is open.
pub data Event : Type 0 where
  apply_saved apply_started apply_failed back_to_wizard : Event
  status_replied : Phase → Bool → Bool → Event
  status_failed : Phase → Event
  final_replied : ℕ → Bool → Event
  final_failed : ℕ → Event
  message : SetupStatus → Event

-- the phases whose effect polls the status
abbrev pub polls_status : Phase → Bool
polls_status running = true
polls_status rebooting = true
polls_status _ = false

abbrev pub listens : Phase → Bool
listens running = true
listens applying = true
listens rebooting = true
listens _ = false

-- A reply for a run of the last phase's effect that has not begun, and a message without a socket, do
-- not occur. A reply to a poll of the status is allowed at any time, more than can happen.
unfoldable pub step : Event → Progress → Progress
unfolding set_phase status_reply status_unreachable final_reply final_unreachable on_setup_status
step apply_saved p = set_phase applying p
step apply_started p = set_phase running p
step apply_failed p = set_phase wizard p
step back_to_wizard p = set_phase wizard p
step (status_replied seen fin up) p = if polls_status seen then status_reply seen fin up p else p
step (status_failed seen) p = if polls_status seen then status_unreachable seen p else p
step (final_replied i ok) p = if ltb i p.runs then final_reply i ok p else p
step (final_failed i) p = if ltb i p.runs then final_unreachable i p else p
step (message s) p = if listens p.phase then on_setup_status s p else p

-- A history lists the events with the latest first, from the moment that the wizard is opened.
unfoldable pub history : List Event → Progress
history [] = record { phase = wizard; runs = 0; went_down = λ _. false }
history (e ∷ es) = step e (history es)
