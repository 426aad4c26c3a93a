-- ===== src/Wizard/Completion.antt =====
-- web/src/components/setup/SetupWizard.tsx: what must have been seen before "Setup Complete!".
use sentry_usb.Base.{ℕ, ◌<◌, ◌≡◌, Bool, true, false, List, [], ◌∷◌, arith, if◌then◌else◌, ◌==◌}
use sentry_usb.Wizard.Phases.{
  complete, Event, apply_saved, apply_started, apply_failed, back_to_wizard, status_replied,
  status_failed, final_replied, final_failed, message, complete_status, starting,
  downloading_scripts, run, rebooting_status, error_status, other, step, history,
}

-- Among the events, the latest first: the setup said that it was finished.
abbrev pub was_finished : List Event → Bool
was_finished [] = false
was_finished (status_replied seen true up ∷ es) = true
was_finished (message complete_status ∷ es) = true
was_finished (_ ∷ es) = was_finished es

-- Then a poll of the run `i` of the last phase found the server unreachable.
abbrev pub then_went_down : ℕ → List Event → Bool
then_went_down i [] = false
then_went_down i (final_failed j ∷ es) =
    if j == i then (if was_finished es then true else then_went_down i es) else then_went_down i es
then_went_down i (_ ∷ es) = then_went_down i es

-- Then a poll of the same run had a good answer.
abbrev pub then_came_back : List Event → Bool
then_came_back [] = false
then_came_back (final_replied i true ∷ es) = if then_went_down i es then true else then_came_back es
then_came_back (_ ∷ es) = then_came_back es

record Witnessed (es : List Event) : Type 0 where
  finished : 0 < (history es).runs → was_finished es ≡ true
  down : (i : ℕ) → (history es).went_down i ≡ true → then_went_down i es ≡ true
  back : (history es).phase ≡ complete → then_came_back es ≡ true

history-Witnessed : (es : List Event) → Witnessed es
unfolding history step
history-Witnessed [] = record {
  finished = λ e. ground (arith, e);
  down = λ i e. cc;
  back = λ e. cc;
}
history-Witnessed (apply_saved ∷ es) =
    let h = history-Witnessed es in record { finished = h.finished; down = h.down; back = λ e. cc }
history-Witnessed (apply_started ∷ es) =
    let h = history-Witnessed es in record { finished = h.finished; down = h.down; back = λ e. cc }
history-Witnessed (apply_failed ∷ es) =
    let h = history-Witnessed es in record { finished = h.finished; down = h.down; back = λ e. cc }
history-Witnessed (back_to_wizard ∷ es) =
    let h = history-Witnessed es in record { finished = h.finished; down = h.down; back = λ e. cc }
history-Witnessed (status_replied seen true up ∷ es) =
    let h = history-Witnessed es in
    record {
      finished = λ e. ground (arith, e, h.finished);
      down = λ j e. ground (arith, e, h.finished, h.down j);
      back = λ e. ground (arith, e, h.back);
    }
history-Witnessed (status_replied seen false true ∷ es) =
    let h = history-Witnessed es in
    record {
      finished = λ e. ground (arith, e, h.finished);
      down = λ j e. ground (arith, e, h.finished, h.down j);
      back = λ e. ground (arith, e, h.back);
    }
history-Witnessed (status_replied seen false false ∷ es) =
    let h = history-Witnessed es in
    record {
      finished = λ e. ground (arith, e, h.finished);
      down = λ j e. ground (arith, e, h.finished, h.down j);
      back = λ e. ground (arith, e, h.back);
    }
history-Witnessed (status_failed seen ∷ es) =
    let h = history-Witnessed es in
    record {
      finished = λ e. ground (arith, e, h.finished);
      down = λ i e. ground (arith, e, h.down i);
      back = λ e. ground (arith, e, h.back);
    }
history-Witnessed (final_replied i true ∷ es) =
    let h = history-Witnessed es in
    record {
      finished = λ e. ground (arith, e, h.finished);
      down = λ j e. ground (arith, e, h.down j);
      back = λ e. ground (arith, e, h.down i, h.back);
    }
history-Witnessed (final_replied i false ∷ es) =
    let h = history-Witnessed es in
    record {
      finished = λ e. ground (arith, e, h.finished);
      down = λ j e. ground (arith, e, h.finished, h.down j);
      back = λ e. ground (arith, e, h.back);
    }
history-Witnessed (final_failed i ∷ es) =
    let h = history-Witnessed es in
    record {
      finished = λ e. ground (arith, e, h.finished);
      down = λ j e. ground (arith, e, h.finished, h.down j);
      back = λ e. ground (arith, e, h.back);
    }
history-Witnessed (message starting ∷ es) =
    let h = history-Witnessed es in
    record {
      finished = λ e. ground (arith, e, h.finished);
      down = λ j e. ground (arith, e, h.finished, h.down j);
      back = λ e. ground (arith, e, h.back);
    }
history-Witnessed (message downloading_scripts ∷ es) =
    let h = history-Witnessed es in
    record {
      finished = λ e. ground (arith, e, h.finished);
      down = λ j e. ground (arith, e, h.finished, h.down j);
      back = λ e. ground (arith, e, h.back);
    }
history-Witnessed (message run ∷ es) =
    let h = history-Witnessed es in
    record {
      finished = λ e. ground (arith, e, h.finished);
      down = λ j e. ground (arith, e, h.finished, h.down j);
      back = λ e. ground (arith, e, h.back);
    }
history-Witnessed (message complete_status ∷ es) =
    let h = history-Witnessed es in
    record {
      finished = λ e. ground (arith, e, h.finished);
      down = λ j e. ground (arith, e, h.finished, h.down j);
      back = λ e. ground (arith, e, h.back);
    }
history-Witnessed (message rebooting_status ∷ es) =
    let h = history-Witnessed es in
    record {
      finished = λ e. ground (arith, e, h.finished);
      down = λ j e. ground (arith, e, h.finished, h.down j);
      back = λ e. ground (arith, e, h.back);
    }
history-Witnessed (message error_status ∷ es) =
    let h = history-Witnessed es in
    record {
      finished = λ e. ground (arith, e, h.finished);
      down = λ j e. ground (arith, e, h.finished, h.down j);
      back = λ e. ground (arith, e, h.back);
    }
history-Witnessed (message other ∷ es) =
    let h = history-Witnessed es in
    record {
      finished = λ e. ground (arith, e, h.finished);
      down = λ j e. ground (arith, e, h.finished, h.down j);
      back = λ e. ground (arith, e, h.back);
    }

-- From the opening of the wizard on, whatever happens, late replies included: the wizard shows
-- "complete" only if the setup was reported finished, after that a poll of a run of the last phase's
-- effect found the server unreachable, and after that a poll of the same run had a good answer.
pub complete-then_came_back :
    (es : List Event) → (history es).phase ≡ complete → then_came_back es ≡ true
complete-then_came_back es = (history-Witnessed es).back
