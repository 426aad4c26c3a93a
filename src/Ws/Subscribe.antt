-- ===== src/Ws/Subscribe.antt =====
-- web/src/lib/ws.ts: `subscribe`, and the delivery of a message to the handlers of its type.
use sentry_usb.Base.{
  ℕ, suc, ◌+◌, ◌≤◌, ◌≡◌, refl, true, false, none, some, List, [], ◌∷◌, ◌++◌, arith, ◌==◌,
  if◌then◌else◌, any, String, Bool, str_eq, eq_iff, Bool-cases, Option-cases, inl, inr,
}
use sentry_usb.Base.Dict.{get, get-put}
use sentry_usb.Ws.{
  Client, Effect, notify, deliver, ping, initial, add_member, delete_member, handlers_of, connect,
  disconnect, reconnect, subscribe, unsubscribe, on_open, on_close, on_message, on_error, ping_tick,
  reconnect_fire, on_status_change, off_status_change, Step, Reach, here, next, deliver_all,
  call_connect, call_disconnect, call_reconnect, call_subscribe, call_unsubscribe, call_listen,
  call_unlisten, socket_open, socket_message, socket_close, socket_error, ping_timer,
  reconnect_timer,
}

-- how often a member stands in a list
abbrev pub copies : ℕ → List ℕ → ℕ
copies a [] = 0
copies a (b ∷ l) = if b == a then suc (copies a l) else copies a l

-- how often a handler was given a payload
abbrev pub deliveries : ℕ → ℕ → List Effect → ℕ
deliveries h p [] = 0
deliveries h p (deliver k q ∷ log) =
    if k == h
    then (if q == p then suc (deliveries h p log) else deliveries h p log)
    else deliveries h p log
deliveries h p (notify cb v ∷ log) = deliveries h p log
deliveries h p (ping i ∷ log) = deliveries h p log

pub any-copies : (a : ℕ) (l : List ℕ) → any (λ b. b == a) l ≡ false → copies a l ≡ 0
any-copies a [] h = refl
any-copies a (b ∷ l) h = ground (arith, any-copies a l)

any-copies_pos : (a : ℕ) (l : List ℕ) → any (λ b. b == a) l ≡ true → 1 ≤ copies a l
any-copies_pos a [] h = cc
any-copies_pos a (b ∷ l) h = ground (arith, any-copies_pos a l)

pub copies-append : (a : ℕ) (l m : List ℕ) → copies a (l ++ m) ≡ copies a l + copies a m
copies-append a [] m = ground arith
copies-append a (b ∷ l) m = ground (arith, copies-append a l m)

pub copies-add_member : (a b : ℕ) (l : List ℕ) → copies a l ≤ 1 → copies a (add_member b l) ≤ 1
unfolding add_member
copies-add_member a b l h = elim (Bool-cases (any (λ c. c == b) l)) [
  | inl old ↦ rw old h
  | inr new ↦ rw new (ground (arith, copies-append a l (b ∷ []), any-copies b l new))
]

pub copies-add_member_self : (a : ℕ) (l : List ℕ) → copies a l ≤ 1 → copies a (add_member a l) ≡ 1
unfolding add_member
copies-add_member_self a l h = elim (Bool-cases (any (λ c. c == a) l)) [
  | inl old ↦ rw old (omega (arith, any-copies_pos a l old))
  | inr new ↦ rw new (ground (arith, copies-append a l (a ∷ []), any-copies a l new))
]

pub copies-delete_member : (a b : ℕ) (l : List ℕ) → copies a (delete_member b l) ≤ copies a l
unfolding delete_member
copies-delete_member a b [] = omega arith
copies-delete_member a b (c ∷ l) = ground (arith, copies-delete_member a b l)

pub copies-delete_member_self : (a : ℕ) (l : List ℕ) → copies a (delete_member a l) ≡ 0
unfolding delete_member
copies-delete_member_self a [] = refl
copies-delete_member_self a (c ∷ l) = ground (arith, copies-delete_member_self a l)

deliveries-deliver_all :
    (throws : ℕ → Bool) (h p : ℕ) (hs : List ℕ) (log : List Effect)
    → ((k : ℕ) → throws k ≡ false)
    → deliveries h p (deliver_all throws hs p log) ≡ copies h hs + deliveries h p log
unfolding deliver_all
deliveries-deliver_all throws h p [] log calm = ground arith
deliveries-deliver_all throws h p (k ∷ hs) log calm =
    ground (arith, calm k, deliveries-deliver_all throws h p hs (deliver k p ∷ log) calm)

deliver_all-none :
    (throws : ℕ → Bool) (h p : ℕ) (hs : List ℕ) (log : List Effect)
    → copies h hs ≡ 0
    → deliveries h p (deliver_all throws hs p log) ≡ deliveries h p log
unfolding deliver_all
deliver_all-none throws h p [] log none_there = refl
deliver_all-none throws h p (k ∷ hs) log none_there =
    ground (arith, none_there, deliver_all-none throws h p hs (deliver k p ∷ log))

pub deliveries-on_message :
    (throws : ℕ → Bool) (t : String) (h p : ℕ) (c : Client)
    → ((k : ℕ) → throws k ≡ false)
    → deliveries h p (on_message throws (some (t, p)) c).log
      ≡ copies h (handlers_of t c.handlers) + deliveries h p c.log
unfolding on_message handlers_of
deliveries-on_message throws t h p c calm = elim (Option-cases (get t c.handlers)) [
  | inl missing ↦ ground (arith, missing)
  | inr (hs, found) ↦ ground (arith, found, deliveries-deliver_all throws h p hs c.log calm)
]

pub on_message-none :
    (throws : ℕ → Bool) (t : String) (h p : ℕ) (c : Client)
    → copies h (handlers_of t c.handlers) ≡ 0
    → deliveries h p (on_message throws (some (t, p)) c).log ≡ deliveries h p c.log
unfolding on_message handlers_of
on_message-none throws t h p c absent = elim (Option-cases (get t c.handlers)) [
  | inl missing ↦ ground (arith, missing)
  | inr (hs, found) ↦
      let none_there : copies h hs ≡ 0 = ground (arith, found, absent) in
      ground (arith, found, deliver_all-none throws h p hs c.log none_there)
]

-- the sets of handlers hold a member once
abbrev pub IsSetOf : List (String × List ℕ) → Type 0
IsSetOf table = (t : String) (h : ℕ) → copies h (handlers_of t table) ≤ 1

delete_member_nil : (h : ℕ) → delete_member h [] ≡ []
unfolding delete_member
delete_member_nil h = refl

pub handlers_of-subscribe :
    (t s : String) (h : ℕ) (c : Client)
    → handlers_of s (subscribe t h c).handlers
      ≡ (if str_eq t s then add_member h (handlers_of t c.handlers) else handlers_of s c.handlers)
unfolding subscribe handlers_of
handlers_of-subscribe t s h c =
    ground (arith, get-put t s (add_member h (handlers_of t c.handlers)) c.handlers)

pub handlers_of-unsubscribe :
    (t s : String) (h : ℕ) (c : Client)
    → handlers_of s (unsubscribe t h c).handlers ≡ (
        if str_eq t s then delete_member h (handlers_of t c.handlers) else handlers_of s c.handlers)
unfolding unsubscribe handlers_of
handlers_of-unsubscribe t s h c = elim (Option-cases (get t c.handlers)) [
  | inl missing ↦ ground (arith, eq_iff t s, delete_member_nil h)
  | inr (hs, found) ↦ ground (arith, get-put t s (delete_member h hs) c.handlers)
]

Step-IsSetOf : {c d : Client} → Step c d → IsSetOf c.handlers → IsSetOf d.handlers
Step-IsSetOf (call_connect c) h t a = unfold connect in ground (arith, h t a)
Step-IsSetOf (call_disconnect c) h t a = unfold disconnect in ground (arith, h t a)
Step-IsSetOf (call_reconnect c) h t a = unfold reconnect in ground (arith, h t a)
Step-IsSetOf (call_subscribe s k c) h t a = ground (
  arith,
  h t a,
  h s a,
  handlers_of-subscribe s t k c,
  copies-add_member a k (handlers_of s c.handlers),
)
Step-IsSetOf (call_unsubscribe s k c) h t a = ground (
  arith,
  h t a,
  h s a,
  handlers_of-unsubscribe s t k c,
  copies-delete_member a k (handlers_of s c.handlers),
)
Step-IsSetOf (call_listen cb c) h t a = unfold on_status_change in h t a
Step-IsSetOf (call_unlisten cb c) h t a = unfold off_status_change in h t a
Step-IsSetOf (socket_open j c w) h t a = unfold on_open in ground (arith, h t a)
Step-IsSetOf (socket_message throws none c) h t a = unfold on_message in h t a
Step-IsSetOf (socket_message throws (some (s, p)) c) h t a =
    unfold on_message in ground (arith, h t a)
Step-IsSetOf (socket_close j c w) h t a = unfold on_close in ground (arith, h t a)
Step-IsSetOf (socket_error j c) h t a = unfold on_error in ground (arith, h t a)
Step-IsSetOf (ping_timer c w) h t a = unfold ping_tick in ground (arith, h t a)
Step-IsSetOf (reconnect_timer c w) h t a = unfold reconnect_fire in ground (arith, h t a)

pub Reach-IsSetOf : {c : Client} → Reach initial c → IsSetOf c.handlers
unfolding initial get handlers_of
Reach-IsSetOf here t h = omega arith
Reach-IsSetOf (next r st) t h = Step-IsSetOf st (Reach-IsSetOf r) t h
