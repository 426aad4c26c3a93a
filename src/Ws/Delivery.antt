-- ===== src/Ws/Delivery.antt =====
-- web/src/lib/ws.ts: a handler gets the messages of its type from its `subscribe` on, until it is
-- unsubscribed, whatever happens to the connection in between.
use sentry_usb.Base.{
  ℕ, suc, ◌≡◌, refl, Bool, false, ◌&&◌, ◌||◌, none, some, List, [], ◌∷◌, arith, ◌==◌, any, String,
  str_eq, eq_iff, Bool-cases, inl, inr, subst,
}
use sentry_usb.Ws.{
  Client, initial, add_member, delete_member, handlers_of, connect, disconnect, reconnect,
  subscribe, unsubscribe, on_open, on_close, on_message, on_error, ping_tick, reconnect_fire,
  on_status_change, off_status_change, Step, Reach, here, next, call_connect, call_disconnect,
  call_reconnect, call_subscribe, call_unsubscribe, call_listen, call_unlisten, socket_open,
  socket_message, socket_close, socket_error, ping_timer, reconnect_timer,
}
use sentry_usb.Ws.Subscribe.{
  copies, deliveries, copies-add_member_self, copies-delete_member, copies-delete_member_self,
  copies-append, any-copies, deliveries-on_message, on_message-none, handlers_of-subscribe,
  handlers_of-unsubscribe, Reach-IsSetOf,
}

-- whether a step takes the handler off the type, or puts it there
abbrev pub removes : String → ℕ → {c d : Client} → Step c d → Bool
removes t h (call_unsubscribe s k c) = str_eq s t && k == h
removes t h _ = false

abbrev pub adds : String → ℕ → {c d : Client} → Step c d → Bool
adds t h (call_subscribe s k c) = str_eq s t && k == h
adds t h _ = false

abbrev pub any_removes : String → ℕ → {c d : Client} → Reach c d → Bool
any_removes t h here = false
any_removes t h (next r st) = removes t h st || any_removes t h r

abbrev pub any_adds : String → ℕ → {c d : Client} → Reach c d → Bool
any_adds t h here = false
any_adds t h (next r st) = adds t h st || any_adds t h r

-- a member is no other that is missing
apart : (a b : ℕ) (l : List ℕ) → copies a l ≡ 1 → any (λ c. c == b) l ≡ false → (b == a) ≡ false
apart a b l h new = elim (Bool-cases (b == a)) [
  | inl same ↦
      let e : b ≡ a = ground (arith, same) in
      ground (arith, h, subst (λ x. copies x l ≡ 0) e (any-copies b l new))
  | inr other ↦ other
]

copies-add_member_one : (a b : ℕ) (l : List ℕ) → copies a l ≡ 1 → copies a (add_member b l) ≡ 1
unfolding add_member
copies-add_member_one a b l h = elim (Bool-cases (any (λ c. c == b) l)) [
  | inl old ↦ rw old h
  | inr new ↦ rw new (ground (arith, h, copies-append a l (b ∷ []), apart a b l h new))
]

copies-add_other :
    (a b : ℕ) (l : List ℕ) → (b == a) ≡ false → copies a (add_member b l) ≡ copies a l
unfolding add_member
copies-add_other a b l h = elim (Bool-cases (any (λ c. c == b) l)) [
  | inl old ↦ rw old refl
  | inr new ↦ rw new (ground (arith, copies-append a l (b ∷ []), h))
]

copies-delete_other :
    (a b : ℕ) (l : List ℕ) → (b == a) ≡ false → copies a (delete_member b l) ≡ copies a l
unfolding delete_member
copies-delete_other a b [] h = refl
copies-delete_other a b (c ∷ l) h = ground (arith, h, copies-delete_other a b l h)

Step-kept :
    {c d : Client} (t : String) (h : ℕ) (st : Step c d)
    → removes t h st ≡ false
    → copies h (handlers_of t c.handlers) ≡ 1
    → copies h (handlers_of t d.handlers) ≡ 1
Step-kept t h (call_connect c) kept e = unfold connect in ground (arith, e)
Step-kept t h (call_disconnect c) kept e = unfold disconnect in ground (arith, e)
Step-kept t h (call_reconnect c) kept e = unfold reconnect in ground (arith, e)
Step-kept t h (call_subscribe s k c) kept e = ground (
  arith,
  e,
  handlers_of-subscribe s t k c,
  eq_iff s t,
  copies-add_member_one h k (handlers_of t c.handlers),
)
Step-kept t h (call_unsubscribe s k c) kept e = ground (
  arith,
  kept,
  e,
  handlers_of-unsubscribe s t k c,
  eq_iff s t,
  copies-delete_other h k (handlers_of t c.handlers),
)
Step-kept t h (call_listen cb c) kept e = unfold on_status_change in e
Step-kept t h (call_unlisten cb c) kept e = unfold off_status_change in e
Step-kept t h (socket_open j c w) kept e = unfold on_open in ground (arith, e)
Step-kept t h (socket_message throws none c) kept e = unfold on_message in e
Step-kept t h (socket_message throws (some (s, p)) c) kept e =
    unfold on_message in ground (arith, e)
Step-kept t h (socket_close j c w) kept e = unfold on_close in ground (arith, e)
Step-kept t h (socket_error j c) kept e = unfold on_error in ground (arith, e)
Step-kept t h (ping_timer c w) kept e = unfold ping_tick in ground (arith, e)
Step-kept t h (reconnect_timer c w) kept e = unfold reconnect_fire in ground (arith, e)

Step-gone :
    {c d : Client} (t : String) (h : ℕ) (st : Step c d)
    → adds t h st ≡ false
    → copies h (handlers_of t c.handlers) ≡ 0
    → copies h (handlers_of t d.handlers) ≡ 0
Step-gone t h (call_connect c) kept e = unfold connect in ground (arith, e)
Step-gone t h (call_disconnect c) kept e = unfold disconnect in ground (arith, e)
Step-gone t h (call_reconnect c) kept e = unfold reconnect in ground (arith, e)
Step-gone t h (call_subscribe s k c) kept e = ground (
  arith,
  kept,
  e,
  handlers_of-subscribe s t k c,
  eq_iff s t,
  copies-add_other h k (handlers_of t c.handlers),
)
Step-gone t h (call_unsubscribe s k c) kept e = ground (
  arith,
  e,
  handlers_of-unsubscribe s t k c,
  eq_iff s t,
  copies-delete_member h k (handlers_of t c.handlers),
)
Step-gone t h (call_listen cb c) kept e = unfold on_status_change in e
Step-gone t h (call_unlisten cb c) kept e = unfold off_status_change in e
Step-gone t h (socket_open j c w) kept e = unfold on_open in ground (arith, e)
Step-gone t h (socket_message throws none c) kept e = unfold on_message in e
Step-gone t h (socket_message throws (some (s, p)) c) kept e =
    unfold on_message in ground (arith, e)
Step-gone t h (socket_close j c w) kept e = unfold on_close in ground (arith, e)
Step-gone t h (socket_error j c) kept e = unfold on_error in ground (arith, e)
Step-gone t h (ping_timer c w) kept e = unfold ping_tick in ground (arith, e)
Step-gone t h (reconnect_timer c w) kept e = unfold reconnect_fire in ground (arith, e)

Reach-kept :
    {c d : Client} (t : String) (h : ℕ) (r : Reach c d)
    → any_removes t h r ≡ false
    → copies h (handlers_of t c.handlers) ≡ 1
    → copies h (handlers_of t d.handlers) ≡ 1
Reach-kept t h here kept e = e
Reach-kept t h (next r st) kept e =
    Step-kept t h st (ground (arith, kept)) (Reach-kept t h r (ground (arith, kept)) e)

Reach-gone :
    {c d : Client} (t : String) (h : ℕ) (r : Reach c d)
    → any_adds t h r ≡ false
    → copies h (handlers_of t c.handlers) ≡ 0
    → copies h (handlers_of t d.handlers) ≡ 0
Reach-gone t h here kept e = e
Reach-gone t h (next r st) kept e =
    Step-gone t h st (ground (arith, kept)) (Reach-gone t h r (ground (arith, kept)) e)

-- A handler that is subscribed to a type in a reachable state, however often before: in every state
-- that comes later, as long as it is not unsubscribed from that type, a message of that type is given
-- to it exactly once, if no handler throws at this message. Lost connections, reconnects and other
-- calls in between change nothing of that.
pub subscribe_delivers :
    {c d : Client} (t : String) (h p : ℕ) (throws : ℕ → Bool)
    → Reach initial c
    → (later : Reach (subscribe t h c) d) → any_removes t h later ≡ false
    → ((k : ℕ) → throws k ≡ false)
    → deliveries h p (on_message throws (some (t, p)) d).log ≡ suc (deliveries h p d.log)
subscribe_delivers {c} {d} t h p throws r later kept calm =
    let first : copies h (handlers_of t (subscribe t h c).handlers) ≡ 1 = ground (
      arith,
      handlers_of-subscribe t t h c,
      eq_iff t t,
      copies-add_member_self h (handlers_of t c.handlers) (Reach-IsSetOf r t h),
    ) in
    omega (arith, deliveries-on_message throws t h p d calm, Reach-kept t h later kept first)

-- A handler that is unsubscribed from a type: in every state that comes later, as long as it is not
-- subscribed to that type again, a message of that type is not given to it, whichever handlers throw.
pub unsubscribe_silences :
    {d : Client} (c : Client) (t : String) (h p : ℕ) (throws : ℕ → Bool)
    (later : Reach (unsubscribe t h c) d)
    → any_adds t h later ≡ false
    → deliveries h p (on_message throws (some (t, p)) d).log ≡ deliveries h p d.log
unsubscribe_silences {d} c t h p throws later never =
    let first : copies h (handlers_of t (unsubscribe t h c).handlers) ≡ 0 = ground (
      arith,
      handlers_of-unsubscribe t t h c,
      eq_iff t t,
      copies-delete_member_self h (handlers_of t c.handlers),
    ) in
    on_message-none throws t h p d (Reach-gone t h later never first)
