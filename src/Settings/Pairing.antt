-- ===== src/Settings/Pairing.antt =====
-- web/src/pages/Settings.tsx: how `BlePairButton` ends its polls.
use sentry_usb.Base.{
  ℕ, ◌≡◌, refl, Option, none, some, List, [], ◌∷◌, String, leb, if◌then◌else◌, any, take, length,
  ap, true, ◌+◌, ==_iff, false, suc, ◌∙◌, arith, subst, sym, Bool-cases, ◌++◌, inl, inr, zero,
}
use sentry_usb.Settings.Ble.{
  BleState, idle, initiating, waiting, polling, paired, error, Ble, is, is_timer, tick, reply,
  cleanup, receive, start_polling,
}

-- A tick of interval `n`, and the reply to its request before the next tick.
abbrev pub poll_once : ℕ → Option String → Ble → Ble
poll_once n r s = if is_timer s.poll_ref n then reply n r (tick n s) else s

abbrev pub poll_all : ℕ → List (Option String) → Ble → Ble
poll_all n [] s = s
poll_all n (r ∷ rs) s = poll_all n rs (poll_once n r s)

-- what is to come of the replies when `left` requests are left
abbrev pub outcome : ℕ → List (Option String) → BleState
outcome left rs =
    if any (is "paired") (take left rs)
    then paired
    else if leb left (length rs)
    then error
    else waiting

-- The interval is on while the state is `waiting`.
abbrev pub timer_in : ℕ → BleState → Option ℕ
timer_in n waiting = some n
timer_in n idle = none
timer_in n initiating = none
timer_in n polling = none
timer_in n paired = none
timer_in n error = none

pub record IsIn (n : ℕ) (state : BleState) (s : Ble) : Type 0 where
  pub state_is : s.ble_state ≡ state
  pub poll_is : s.poll_ref ≡ timer_in n state
  pub timeout_is : s.timeout_ref ≡ timer_in n state

poll_off : (n : ℕ) (rs : List (Option String)) (s : Ble) → s.poll_ref ≡ none → poll_all n rs s ≡ s
poll_off n [] s h = refl
poll_off n (r ∷ rs) s h =
    let stay : poll_once n r s ≡ s = ap (λ p. if is_timer p n then reply n r (tick n s) else s) h in
    ap (poll_all n rs) stay ∙ poll_off n rs s h

is_timer_self : (n : ℕ) → is_timer (some n) n ≡ true
is_timer_self n = (==_iff n n).1 refl

-- A poll that is on: `left` requests are left before the one that gives up.
record IsWaiting (n left : ℕ) (s : Ble) : Type 0 where
  is_in : IsIn n waiting s
  left_is : s.counts n + suc left ≡ 12

poll_paired :
    (n : ℕ) (r : Option String) (s : Ble)
    → s.poll_ref ≡ some n
    → is "paired" r ≡ true
    → IsIn n paired (poll_once n r s)
unfolding reply tick cleanup
poll_paired n r s h p =
    rw (h, is_timer_self n, p) (record { state_is = refl; poll_is = refl; timeout_is = refl })

poll_last :
    (n : ℕ) (r : Option String) (s : Ble)
    → IsWaiting n 0 s
    → is "paired" r ≡ false
    → IsIn n error (poll_once n r s)
unfolding reply tick cleanup
poll_last n r s w p =
    let c : leb 12 (suc (s.counts n)) ≡ true = ground (arith, w.left_is) in
    rw (w.is_in.poll_is, is_timer_self n, p, is_timer_self n, c)
      (record { state_is = refl; poll_is = refl; timeout_is = refl })

poll_next :
    (n left : ℕ) (r : Option String) (s : Ble)
    → IsWaiting n (suc left) s
    → is "paired" r ≡ false
    → IsWaiting n left (poll_once n r s)
unfolding reply tick cleanup
poll_next n left r s w p =
    let c : leb 12 (suc (s.counts n)) ≡ false = ground (arith, w.left_is) in
    rw (w.is_in.poll_is, is_timer_self n, p, is_timer_self n, c)
      (record {
        is_in = record {
          state_is = w.is_in.state_is;
          poll_is = refl;
          timeout_is = w.is_in.timeout_is;
        };
        left_is = rw (is_timer_self n) (omega (arith, w.left_is));
      })

IsIn-off :
    (n : ℕ) (rs : List (Option String)) (state : BleState) (s : Ble)
    → timer_in n state ≡ none
    → IsIn n state s
    → IsIn n state (poll_all n rs s)
IsIn-off n rs state s off h = subst (IsIn n state) (sym (poll_off n rs s (h.poll_is ∙ off))) h

poll_all-IsIn :
    (n left : ℕ) (rs : List (Option String)) (s : Ble)
    → IsWaiting n left s
    → IsIn n (outcome (suc left) rs) (poll_all n rs s)
poll_all-IsIn n left [] s w = let more : leb (suc left) 0 ≡ false = ground arith in rw more w.is_in
poll_all-IsIn n zero (r ∷ rs) s w = elim (Bool-cases (is "paired" r)) [
  | inl p ↦ rw p (IsIn-off n rs paired (poll_once n r s) refl (poll_paired n r s w.is_in.poll_is p))
  | inr p ↦
      let none_left : leb 1 (suc (length rs)) ≡ true = ground arith in
      rw (p, none_left) (IsIn-off n rs error (poll_once n r s) refl (poll_last n r s w p))
]
poll_all-IsIn n (suc left) (r ∷ rs) s w = elim (Bool-cases (is "paired" r)) [
  | inl p ↦ rw p (IsIn-off n rs paired (poll_once n r s) refl (poll_paired n r s w.is_in.poll_is p))
  | inr p ↦
      let rest = poll_all-IsIn n left rs (poll_once n r s) (poll_next n left r s w p) in
      let fewer : leb (suc (suc left)) (suc (length rs)) ≡ leb (suc left) (length rs) =
        ground arith in
      rw (p, fewer) rest
]

started-IsWaiting : (e : Option String) (s : Ble) → IsWaiting s.next 11 (receive "waiting" e s)
unfolding receive start_polling cleanup
started-IsWaiting e s = record {
  is_in = record { state_is = refl; poll_is = refl; timeout_is = refl };
  left_is = rw (is_timer_self s.next) refl;
}

-- After the message that the car waits, with each reply before the next poll: the pairing succeeds
-- if one of the first twelve replies says so, fails at the twelfth reply if none of them does, and
-- waits on before that. The interval and the timer are set exactly while it waits.
pub poll_all-outcome :
    (e : Option String) (s : Ble) (rs : List (Option String))
    → IsIn s.next (outcome 12 rs) (poll_all s.next rs (receive "waiting" e s))
poll_all-outcome e s rs = poll_all-IsIn s.next 11 rs (receive "waiting" e s) (started-IsWaiting e s)

-- the replies to requests of interval `n` that are on their way, in the order in which they come
abbrev pub late_replies : ℕ → List (Option String) → Ble → Ble
late_replies n [] s = s
late_replies n (r ∷ rs) s = late_replies n rs (reply n r s)

abbrev pub verdict : Option String → BleState
verdict r = if is "paired" r then paired else error

reply_full :
    (n : ℕ) (r : Option String) (s : Ble)
    → leb 12 (s.counts n) ≡ true
    → ((reply n r s).ble_state ≡ verdict r) × ((reply n r s).counts n ≡ s.counts n)
unfolding reply cleanup
reply_full n r s h = elim (Bool-cases (is "paired" r)) [
  | inl p ↦ rw p (refl, refl)
  | inr p ↦ rw (p, h) (refl, refl)
]

-- Once an interval has sent twelve requests, the last reply decides, whatever came before it: a
-- late reply that does not say "paired" turns a pairing that succeeded into an error.
late_replies-verdict :
    (n : ℕ) (rs : List (Option String)) (r : Option String) (s : Ble)
    → leb 12 (s.counts n) ≡ true
    → (late_replies n (rs ++ r ∷ []) s).ble_state ≡ verdict r
late_replies-verdict n [] r s h = (reply_full n r s h).0
late_replies-verdict n (q ∷ rs) r s h =
    late_replies-verdict n rs r (reply n q s) (rw ((reply_full n q s h).1) h)
