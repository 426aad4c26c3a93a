-- ===== src/KeepAwake/Polls.antt =====
-- web/src/hooks/useKeepAwake.tsx: polls against the changes that the user makes.
use sentry_usb.Base.{ℕ, ◌≡◌, refl, Bool, ◌&&◌, List, [], ◌∷◌, arith, leb, if◌then◌else◌}
use sentry_usb.KeepAwake.{
  KeepAwakeStatus, idle_status, Hook, poll_finish, start_begin, start_finish, stop,
  update_mode_saved,
}

-- a poll that ends: when it started, whether its effect is mounted still, and the reply
pub record Poll : Type 0 where
  pub started_at : ℕ
  pub mounted : Bool
  pub reply : KeepAwakeStatus

-- several polls end, in order
unfoldable pub polls_finish : List Poll → Hook → Hook
polls_finish [] h = h
polls_finish (p ∷ ps) h = polls_finish ps (poll_finish p.started_at p.mounted p.reply h)

-- The last reply whose poll started at or after `since` while mounted, or else `shown`.
abbrev pub last_fresh : ℕ → KeepAwakeStatus → List Poll → KeepAwakeStatus
last_fresh since shown [] = shown
last_fresh since shown (p ∷ ps) =
    last_fresh since (if p.mounted && leb since p.started_at then p.reply else shown) ps

polls_finish-status :
    (ps : List Poll) (h : Hook)
    → (polls_finish ps h).status ≡ last_fresh h.last_mutation h.status ps
unfolding polls_finish poll_finish
polls_finish-status [] h = refl
polls_finish-status (p ∷ ps) h =
    ground (arith, polls_finish-status ps (poll_finish p.started_at p.mounted p.reply h))

-- After a stop, a switch to the mode "off", or a start, whatever polls end in whatever order: the
-- status shown is the last reply among those whose poll started at the time of that change or
-- later (while mounted), and otherwise what the change itself shows; older polls are ignored.
pub polls_after_mutation :
    (ps : List Poll) (now duration : ℕ) (reply : KeepAwakeStatus) (h : Hook)
    → ((polls_finish ps (stop now h)).status ≡ last_fresh now idle_status ps)
      × ((polls_finish ps (update_mode_saved "" now h)).status ≡ last_fresh now idle_status ps)
      × ((polls_finish ps (start_begin now duration h)).status ≡ last_fresh now h.status ps)
      × ((polls_finish ps (start_finish reply (start_begin now duration h))).status
          ≡ last_fresh now reply ps)
unfolding stop start_begin start_finish update_mode_saved
polls_after_mutation ps now duration reply h = (
  polls_finish-status ps (stop now h),
  polls_finish-status ps (update_mode_saved "" now h),
  polls_finish-status ps (start_begin now duration h),
  polls_finish-status ps (start_finish reply (start_begin now duration h)),
)
