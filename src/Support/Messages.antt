-- ===== src/Support/Messages.antt =====
-- web/src/pages/Support.tsx: the messages after any polls.
use sentry_usb.Base.{
  ◌≡◌, refl, sym, ap, ◌∙◌, Bool, true, false, not, ◌||◌, Option, none, some, List, [], ◌∷◌, ◌++◌,
  String, eq_iff, arith, all, Bool-cases, inl, inr, subst,
}
use sentry_usb.Base.Text.{truthy}
use sentry_usb.Support.Chat.{
  Ticket, ChatMessage, Support, same_id, has_id, new_messages, show_messages, close_if, fetch_reply,
}
use sentry_usb.Support.Ids.{
  distinct_ids, distinct_ids-append, has_id-append, new_messages-distinct, new_messages-fresh,
}

-- every message of the first list with an id is there
abbrev pub all_shown : List ChatMessage → List ChatMessage → Bool
all_shown incoming shown = all (λ m. not (truthy m.id) || has_id m.id shown) incoming

same_id_refl : (i : Option String) → same_id i i ≡ true
same_id_refl none = refl
same_id_refl (some i) = (eq_iff i i).1 refl

abbrev shown_in : List ChatMessage → List ChatMessage → ChatMessage → Bool
shown_in old new m = not (truthy m.id) || has_id m.id old || has_id m.id new

all_in_more :
    (old new incoming : List ChatMessage) (n : ChatMessage)
    → all (shown_in old new) incoming ≡ true
    → all (shown_in old (n ∷ new)) incoming ≡ true
all_in_more old new [] n h = refl
all_in_more old new (m ∷ ms) n h = ground (arith, h, all_in_more old new ms n)

all_in_new : (old ys : List ChatMessage) → all (shown_in old (new_messages old ys)) ys ≡ true
unfolding new_messages
all_in_new old [] = refl
all_in_new old (y ∷ ys) = elim (Bool-cases (not (truthy y.id) || not (has_id y.id old))) [
  | inl kept ↦
      let e : new_messages old (y ∷ ys) ≡ y ∷ new_messages old ys = rw kept refl in
      let rest = all_in_more old (new_messages old ys) ys y (all_in_new old ys) in
      subst (λ new. all (shown_in old new) (y ∷ ys) ≡ true) (sym e)
        (ground (arith, rest, same_id_refl y.id))
  | inr old_one ↦
      let e : new_messages old (y ∷ ys) ≡ new_messages old ys = rw old_one refl in
      subst (λ new. all (shown_in old new) (y ∷ ys) ≡ true) (sym e)
        (ground (arith, old_one, all_in_new old ys))
]

all_shown_append :
    (incoming xs ys : List ChatMessage)
    → all_shown incoming xs ≡ true
    → all_shown incoming (xs ++ ys) ≡ true
all_shown_append [] xs ys h = refl
all_shown_append (m ∷ ms) xs ys h =
    ground (arith, h, has_id-append m.id xs ys, all_shown_append ms xs ys)

all_shown_split :
    (incoming old new : List ChatMessage)
    → all (shown_in old new) incoming ≡ true
    → all_shown incoming (old ++ new) ≡ true
all_shown_split [] old new h = refl
all_shown_split (m ∷ ms) old new h =
    ground (arith, h, has_id-append m.id old new, all_shown_split ms old new)

-- The second list has the first one in front, with further messages behind it.
pub record IsLonger (xs ys : List ChatMessage) : Type 0 where
  pub later : List ChatMessage
  pub longer : ys ≡ xs ++ later

append_nil : (xs : List ChatMessage) → xs ≡ xs ++ []
append_nil [] = refl
append_nil (x ∷ xs) = ap (λ l. x ∷ l) (append_nil xs)

append_assoc : (xs ys zs : List ChatMessage) → (xs ++ ys) ++ zs ≡ xs ++ (ys ++ zs)
append_assoc [] ys zs = refl
append_assoc (x ∷ xs) ys zs = ap (λ l. x ∷ l) (append_assoc xs ys zs)

abbrev Reply : Type 0
Reply = Option (List ChatMessage × Bool)

abbrev pub messages_of : Reply → List ChatMessage
messages_of none = []
messages_of (some r) = r.0

-- the replies to polls that were asked with the ticket, in the order in which they come
abbrev pub polls : Ticket → List Reply → Support → Support
polls t [] s = s
polls t (r ∷ rs) s = polls t rs (fetch_reply t r s)

close_if-messages : (b : Bool) (s : Support) → (close_if b s).messages ≡ s.messages
unfolding close_if
close_if-messages true s = refl
close_if-messages false s = refl

fetch_reply-messages :
    (t : Ticket) (r : Reply) (s : Support)
    → (fetch_reply t r s).messages ≡ s.messages ++ new_messages s.messages (messages_of r)
unfolding fetch_reply show_messages new_messages
fetch_reply-messages t none s = append_nil s.messages
fetch_reply-messages t (some ([], closed)) s = close_if-messages closed s ∙ append_nil s.messages
fetch_reply-messages t (some (m ∷ ms, closed)) s =
    close_if-messages closed (show_messages t (m ∷ ms) s)

fetch_reply-distinct :
    (t : Ticket) (r : Reply) (s : Support)
    → distinct_ids s.messages ≡ true
    → distinct_ids (messages_of r) ≡ true
    → distinct_ids (fetch_reply t r s).messages ≡ true
fetch_reply-distinct t r s h k = rw (fetch_reply-messages t r s) (
    distinct_ids-append s.messages (new_messages s.messages (messages_of r)) h
      (new_messages-distinct s.messages (messages_of r) k)
      (new_messages-fresh s.messages (messages_of r)))

fetch_reply-shown :
    (t : Ticket) (r : Reply) (s : Support)
    → all_shown (messages_of r) (fetch_reply t r s).messages ≡ true
fetch_reply-shown t r s =
    rw (fetch_reply-messages t r s)
      (all_shown_split (messages_of r) s.messages _ (all_in_new s.messages (messages_of r)))

polls-IsLonger :
    (t : Ticket) (rs : List Reply) (s : Support) → IsLonger s.messages (polls t rs s).messages
polls-IsLonger t [] s = record { later = []; longer = append_nil s.messages }
polls-IsLonger t (r ∷ rs) s =
    let rest = polls-IsLonger t rs (fetch_reply t r s) in
    let new = new_messages s.messages (messages_of r) in
    record {
      later = new ++ rest.later;
      longer =
          rest.longer
          ∙ ap (λ l. l ++ rest.later) (fetch_reply-messages t r s)
          ∙ append_assoc s.messages new rest.later;
    }

polls-distinct :
    (t : Ticket) (rs : List Reply) (s : Support)
    → distinct_ids s.messages ≡ true
    → all (λ r. distinct_ids (messages_of r)) rs ≡ true
    → distinct_ids (polls t rs s).messages ≡ true
polls-distinct t [] s h k = h
polls-distinct t (r ∷ rs) s h k =
    polls-distinct t rs (fetch_reply t r s) (fetch_reply-distinct t r s h (ground (arith, k)))
      (ground (arith, k))

longer-shown :
    (incoming xs ys : List ChatMessage)
    → IsLonger xs ys
    → all_shown incoming xs ≡ true
    → all_shown incoming ys ≡ true
longer-shown incoming xs ys l h = rw (l.longer) (all_shown_append incoming xs l.later h)

polls-shown :
    (t : Ticket) (rs : List Reply) (s : Support)
    → all (λ r. all_shown (messages_of r) (polls t rs s).messages) rs ≡ true
polls-shown t [] s = refl
polls-shown t (r ∷ rs) s =
    let first =
      longer-shown (messages_of r) _ _ (polls-IsLonger t rs (fetch_reply t r s))
        (fetch_reply-shown t r s) in
    let rest = polls-shown t rs (fetch_reply t r s) in ground (arith, first, rest)

-- If no two messages share an id at the start, nor within a reply, then after any replies to the
-- polls no two messages share an id, the messages that were there are still there, in their order
-- and before the others, and every message with an id of any of the replies is shown.
pub polls_complete :
    (t : Ticket) (rs : List Reply) (s : Support)
    → distinct_ids s.messages ≡ true
    → all (λ r. distinct_ids (messages_of r)) rs ≡ true
    → (distinct_ids (polls t rs s).messages ≡ true)
      × (IsLonger s.messages (polls t rs s).messages)
      × (all (λ r. all_shown (messages_of r) (polls t rs s).messages) rs ≡ true)
polls_complete t rs s h k = (polls-distinct t rs s h k, polls-IsLonger t rs s, polls-shown t rs s)
