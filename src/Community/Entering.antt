-- ===== src/Community/Entering.antt =====
-- web/src/pages/Community.tsx: how the admin mode is entered.
use sentry_usb.Base.{
  ℕ, ◌+◌, ◌≤◌, ◌≡◌, refl, Bool, true, false, ◌||◌, none, some, List, [], ◌∷◌, ◌++◌, String,
  if◌then◌else◌, arith, any, filter_by, length, Bool-cases, Option-cases, inl, inr,
}
use sentry_usb.Base.Text.{truthy}
use sentry_usb.Community.Admin.{
  Community, mount, open_prompt, handle_heading_click, click_timeout, leave_admin, type_input,
  validate_begin, validate_reply, reply_at, pick, close_prompt, Validation, valid, invalid,
  unreachable, Event, clicked, timed_out, left, closed, submitted, typed, replied, step, run,
}

abbrev pub is_click : Event → Bool
is_click clicked = true
is_click timed_out = false
is_click left = false
is_click closed = false
is_click submitted = false
is_click (typed text) = false
is_click (replied i v) = false

abbrev pub is_valid : Event → Bool
is_valid clicked = false
is_valid timed_out = false
is_valid left = false
is_valid closed = false
is_valid submitted = false
is_valid (typed text) = false
is_valid (replied i valid) = true
is_valid (replied i invalid) = false
is_valid (replied i unreachable) = false

abbrev is_waiting : List (ℕ × String) → Bool
is_waiting [] = false
is_waiting (r ∷ rs) = true

-- what the clicks must have paid for: five for a modal that is open, a request of one that is under
-- way, or a passcode that was accepted
abbrev cost : Community → ℕ
cost s =
    s.click_count
    + (if (s.show_passcode_prompt || is_waiting s.waiting) || truthy s.admin_passcode then 5 else 0)

is_waiting-append : (rs : List (ℕ × String)) (r : ℕ × String) → is_waiting (rs ++ r ∷ []) ≡ true
is_waiting-append [] r = refl
is_waiting-append (q ∷ rs) r = refl

pick-waiting : (i : ℕ) (rs : List (ℕ × String)) → is_waiting rs ≡ false → pick i rs ≡ none
pick-waiting i [] h = refl
pick-waiting i (r ∷ rs) h = ground (arith, h)

reply-cost :
    (r : ℕ × String) (rest : List (ℕ × String)) (v : Validation) (s : Community)
    → is_waiting s.waiting ≡ true
    → cost (validate_reply r v (record s { waiting = rest })) ≤ cost s
unfolding validate_reply
reply-cost (modal, text) rest valid s w = ground (arith, w)
reply-cost (modal, text) rest invalid s w = ground (arith, w)
reply-cost (modal, text) rest unreachable s w = ground (arith, w)

picked-waiting :
    (i : ℕ) (rs rest : List (ℕ × String)) (r : ℕ × String)
    → pick i rs ≡ some (r, rest)
    → is_waiting rs ≡ true
picked-waiting i [] rest r h = ground (arith, h)
picked-waiting i (q ∷ rs) rest r h = refl

reply_at-cost : (i : ℕ) (v : Validation) (s : Community) → cost (reply_at i v s) ≤ cost s
unfolding reply_at
reply_at-cost i v s = elim (Option-cases (pick i s.waiting)) [
  | inl missing ↦ let e : reply_at i v s ≡ s = ground (arith, missing) in rw e (omega arith)
  | inr ((r, rest), found) ↦
      let e : reply_at i v s ≡ validate_reply r v (record s { waiting = rest }) =
        ground (arith, found) in
      rw e (reply-cost r rest v s (picked-waiting i s.waiting rest r found))
]

step-cost :
    (e : Event) (s : Community) → cost (step e s) ≤ cost s + length (filter_by is_click (e ∷ []))
unfolding step handle_heading_click open_prompt click_timeout leave_admin type_input validate_begin
    close_prompt
step-cost clicked s = ground arith
step-cost timed_out s = ground arith
step-cost left s = ground arith
step-cost closed s = ground arith
step-cost submitted s = ground arith
step-cost (typed text) s = ground arith
step-cost (replied i v) s = omega (arith, reply_at-cost i v s)

run-cost :
    (es : List Event) (s : Community) → cost (run es s) ≤ cost s + length (filter_by is_click es)
run-cost [] s = omega arith
run-cost (e ∷ es) s = ground (arith, run-cost es (step e s), step-cost e s)

reply_at-locked :
    (i : ℕ) (v : Validation) (s : Community)
    → truthy s.admin_passcode ≡ false
    → is_valid (replied i v) ≡ false
    → truthy (reply_at i v s).admin_passcode ≡ false
unfolding reply_at validate_reply
reply_at-locked i valid s h k = ground (arith, k)
reply_at-locked i invalid s h k = ground (arith, h)
reply_at-locked i unreachable s h k = ground (arith, h)

step-locked :
    (e : Event) (s : Community)
    → truthy s.admin_passcode ≡ false
    → is_valid e ≡ false
    → truthy (step e s).admin_passcode ≡ false
unfolding step handle_heading_click open_prompt click_timeout leave_admin type_input validate_begin
    close_prompt
step-locked clicked s h k = ground (arith, h)
step-locked timed_out s h k = ground (arith, h)
step-locked left s h k = ground (arith, h)
step-locked closed s h k = ground (arith, h)
step-locked submitted s h k = ground (arith, h)
step-locked (typed text) s h k = ground (arith, h)
step-locked (replied i v) s h k = reply_at-locked i v s h k

run-locked :
    (es : List Event) (s : Community)
    → truthy s.admin_passcode ≡ false
    → any is_valid es ≡ false
    → truthy (run es s).admin_passcode ≡ false
run-locked [] s h k = h
run-locked (e ∷ es) s h k =
    run-locked es (step e s) (step-locked e s h (ground (arith, k))) (ground (arith, k))

-- A page that is in the admin mode, after whatever happened since it was opened (requests that are
-- answered in any order, also after their modal was closed or another one opened), has had at least
-- five clicks on the heading, and a reply that a passcode is valid.
pub run-admin :
    (es : List Event)
    → truthy (run es mount).admin_passcode ≡ true
    → (5 ≤ length (filter_by is_click es)) × (any is_valid es ≡ true)
unfolding mount
run-admin es h = (
  ground (arith, h, run-cost es mount),
  elim (Bool-cases (any is_valid es)) [
    | inl entered ↦ entered
    | inr never ↦ ground (arith, h, run-locked es mount refl never)
  ],
)
