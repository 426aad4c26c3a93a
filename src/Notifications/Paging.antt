-- ===== src/Notifications/Paging.antt =====
-- web/src/pages/Notifications.tsx: the offsets and the requests. The events of the page but the
-- ones that end a clearing or a failed deletion.
use sentry_usb.Base.{
  ℕ, ◌%◌, ◌≡◌, refl, Bool, true, false, Option, none, some, List, [], ◌∷◌, String, str_eq, arith,
  Bool-cases, Option-cases, inl, inr,
}
use sentry_usb.Notifications.History.{
  Kind, Settings, NotificationEvent, Page, mount, Direction, next, prev, load_history,
  history_reply, settings_reply, toggle_begin, toggle_end, clear_all_begin, clear_all_timeout,
  delete_one, handle_filter_change, handle_page,
}

pub data Event : Type 0 where
  history_replied : Option (List NotificationEvent × ℕ) → Event
  settings_replied : Option Settings → Event
  toggled : Kind → Event
  toggle_ended : Option Settings → Bool → Event
  clear_pressed clear_timeout : Event
  deleted : String → Event
  filtered : String → Event
  paged : Direction → Event

unfoldable pub step : Event → Page → Page
unfolding history_reply settings_reply toggle_begin toggle_end clear_all_begin clear_all_timeout
    delete_one handle_filter_change handle_page
step (history_replied r) p = history_reply r p
step (settings_replied r) p = settings_reply r p
step (toggled k) p = (toggle_begin k p).0
step (toggle_ended before ok) p = toggle_end before ok p
step clear_pressed p = (clear_all_begin p).0
step clear_timeout p = clear_all_timeout p
step (deleted id) p = delete_one id p
step (filtered filter) p = handle_filter_change filter p
step (paged direction) p = handle_page direction p

unfoldable pub run : List Event → Page → Page
run [] p = p
run (e ∷ es) p = run es (step e p)

abbrev pub latest : List (ℕ × String) → Option (ℕ × String)
latest [] = none
latest (r ∷ rs) = some r

-- The latest request asks for what is shown, at the start of a page.
pub record IsCurrent (p : Page) : Type 0 where
  pub asked : latest p.requests ≡ some (p.offset, p.type_filter)
  pub aligned : p.offset % 50 ≡ 0

step-IsCurrent : (e : Event) (p : Page) → IsCurrent p → IsCurrent (step e p)
unfolding step history_reply settings_reply toggle_begin toggle_end clear_all_begin
    clear_all_timeout delete_one handle_filter_change handle_page load_history
step-IsCurrent (history_replied none) p c = record { asked = c.asked; aligned = c.aligned }
step-IsCurrent (history_replied (some r)) p c = record { asked = c.asked; aligned = c.aligned }
step-IsCurrent (settings_replied none) p c = record { asked = c.asked; aligned = c.aligned }
step-IsCurrent (settings_replied (some r)) p c = record { asked = c.asked; aligned = c.aligned }
step-IsCurrent (toggled k) p c = elim (Option-cases p.settings) [
  | inl missing ↦ rw missing (record { asked = c.asked; aligned = c.aligned })
  | inr (s, there) ↦ rw there (record { asked = c.asked; aligned = c.aligned })
]
step-IsCurrent (toggle_ended before true) p c = record { asked = c.asked; aligned = c.aligned }
step-IsCurrent (toggle_ended before false) p c = record { asked = c.asked; aligned = c.aligned }
step-IsCurrent clear_pressed p c = elim (Bool-cases p.confirm_clear) [
  | inl confirmed ↦ rw confirmed (record { asked = c.asked; aligned = c.aligned })
  | inr asked ↦ rw asked (record { asked = c.asked; aligned = c.aligned })
]
step-IsCurrent clear_timeout p c = record { asked = c.asked; aligned = c.aligned }
step-IsCurrent (deleted id) p c = record { asked = c.asked; aligned = c.aligned }
step-IsCurrent (filtered filter) p c = elim (Bool-cases (str_eq filter p.type_filter)) [
  | inl same ↦ rw same (record { asked = refl; aligned = omega arith })
  | inr changed ↦ rw changed (record { asked = refl; aligned = omega arith })
]
step-IsCurrent (paged next) p c = record { asked = refl; aligned = omega (arith, c.aligned) }
step-IsCurrent (paged prev) p c = record { asked = refl; aligned = omega (arith, c.aligned) }

mount-IsCurrent : IsCurrent mount
unfolding mount load_history
mount-IsCurrent = record { asked = refl; aligned = omega arith }

run-IsCurrent_from : (es : List Event) (p : Page) → IsCurrent p → IsCurrent (run es p)
unfolding run
run-IsCurrent_from [] p c = c
run-IsCurrent_from (e ∷ es) p c = run-IsCurrent_from es (step e p) (step-IsCurrent e p c)

-- From the first render on, as long as no clearing and no failed deletion ends: the latest
-- request asks for the page and the filter that are shown, and a page starts at a multiple of 50.
run-IsCurrent : (es : List Event) → IsCurrent (run es mount)
run-IsCurrent es = run-IsCurrent_from es mount mount-IsCurrent
