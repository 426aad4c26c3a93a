-- ===== src/Notifications/Toggles.antt =====
-- web/src/pages/Notifications.tsx: the settings that are shown, against the requests that were
-- answered well. What the server keeps after any other answer is not known to the page.
use sentry_usb.Base.{
  ◌≡◌, ◌≢◌, refl, ap, ◌∙◌, Bool, true, false, not, ◌&&◌, none, some, List, [], ◌∷◌, if◌then◌else◌,
  ◌==◌, arith,
}
use sentry_usb.Notifications.History.{Kind, Settings, number, flip, Page, toggle_begin, toggle_end}

-- The page, and its requests with the settings in their bodies and whether the answer was good,
-- the latest first. The answer is not good if it has an error status or if `fetch` throws.
pub record Session : Type 0 where
  pub page : Page
  pub requests : List (Settings × Bool)

-- A press of a switch whose request ends before the next press.
unfoldable pub press : Kind × Bool → Session → Session
unfolding toggle_begin toggle_end
press (key, ok) w =
    let begun = toggle_begin key w.page in
    elim begun.1 [
      | none ↦ w
      | some body ↦ record {
        page = toggle_end w.page.settings ok begun.0;
        requests = (body, ok) ∷ w.requests;
      }
    ]

unfoldable pub presses : List (Kind × Bool) → Session → Session
presses [] w = w
presses (k ∷ ks) w = presses ks (press k w)

-- the settings of the latest request with a good answer, or those at first
abbrev pub accepted : Settings → List (Settings × Bool) → Settings
accepted first [] = first
accepted first ((body, true) ∷ rs) = body
accepted first ((body, false) ∷ rs) = accepted first rs

-- a setting after the presses that had a good answer
abbrev pub toggled : Kind → List (Kind × Bool) → Bool → Bool
toggled k [] b = b
toggled k ((key, ok) ∷ ks) b = toggled k ks (if ok && number k == number key then not b else b)

press-accepted :
    (first : Settings) (key : Kind) (ok : Bool) (w : Session)
    → w.page.settings ≡ some (accepted first w.requests)
    → ((press (key, ok) w).page.settings ≡ some (accepted first (press (key, ok) w).requests))
      × ((k : Kind)
          → accepted first (press (key, ok) w).requests k ≡ (
              if ok && number k == number key
              then not (accepted first w.requests k)
              else accepted first w.requests k))
unfolding press toggle_begin toggle_end flip
press-accepted first key true w e = rw e (refl, λ k. refl)
press-accepted first key false w e = rw e (refl, λ k. refl)

-- Switches that are pressed one after the other, each once the request of the last one has ended,
-- on a page that shows what was accepted last: it goes on showing the settings of the latest request
-- with a good answer, and each setting has changed exactly as often as a press of it had one.
pub presses-accepted :
    (first : Settings) (ks : List (Kind × Bool)) (w : Session)
    → w.page.settings ≡ some (accepted first w.requests)
    → ((presses ks w).page.settings ≡ some (accepted first (presses ks w).requests))
      × ((k : Kind)
          → accepted first (presses ks w).requests k ≡ toggled k ks (accepted first w.requests k))
unfolding presses
presses-accepted first [] w e = (e, λ k. refl)
presses-accepted first ((key, ok) ∷ ks) w e =
    let one = press-accepted first key ok w e in
    let rest = presses-accepted first ks (press (key, ok) w) one.0 in
    (rest.0, λ k. rest.1 k ∙ ap (toggled k ks) (one.1 k))

-- Two switches pressed while the first request is under way, of which the first has no good answer
-- and then the second has one: the page shows both as they were, and the request with the good answer
-- has both changed.
presses_overlap :
    (a b : Kind) (p : Page) (s : Settings)
    → number a ≢ number b
    → p.settings ≡ some s
    → let first = toggle_begin a p in
      let second = toggle_begin b first.0 in
      ((toggle_end first.0.settings true (toggle_end p.settings false second.0)).settings ≡ some s)
      × (second.1 ≡ some (flip b (flip a s)))
      × (flip b (flip a s) a ≡ not (s a))
      × (flip b (flip a s) b ≡ not (s b))
unfolding toggle_begin toggle_end flip
presses_overlap a b p s ne e = rw e (refl, refl, ground (arith, ne), ground (arith, ne))
