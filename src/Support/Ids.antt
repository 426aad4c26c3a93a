-- ===== src/Support/Ids.antt =====
-- web/src/pages/Support.tsx: messages with different ids, and what `fetchMessages` adds to them.
use sentry_usb.Base.{
  ◌≡◌, refl, ap, Bool, true, false, not, ◌&&◌, ◌||◌, Option, none, some, List, [], ◌∷◌, ◌++◌,
  String, eq_iff, arith, all,
}
use sentry_usb.Base.Text.{truthy, is_empty}
use sentry_usb.Support.Chat.{ChatMessage, same_id, has_id, new_messages}

-- no two messages share an id
abbrev pub distinct_ids : List ChatMessage → Bool
distinct_ids [] = true
distinct_ids (m ∷ ms) = (not (truthy m.id) || not (has_id m.id ms)) && distinct_ids ms

-- no message of the second list has an id of the first one
abbrev pub fresh : List ChatMessage → List ChatMessage → Bool
fresh old ms = all (λ m. not (truthy m.id) || not (has_id m.id old)) ms

same_id_sym : (i j : Option String) → same_id i j ≡ same_id j i
same_id_sym none none = refl
same_id_sym none (some j) = refl
same_id_sym (some i) none = refl
same_id_sym (some i) (some j) = ground (arith, eq_iff i j, eq_iff j i)

same_id-truthy : (i j : Option String) → same_id i j ≡ true → truthy i ≡ truthy j
same_id-truthy none none h = refl
same_id-truthy none (some j) h = ground (arith, h)
same_id-truthy (some i) none h = ground (arith, h)
same_id-truthy (some i) (some j) h = ap (λ s. not (is_empty s)) ((eq_iff i j).0 h)

pub has_id-append :
    (i : Option String) (xs ys : List ChatMessage)
    → has_id i (xs ++ ys) ≡ has_id i xs || has_id i ys
has_id-append i [] ys = refl
has_id-append i (x ∷ xs) ys = ground (arith, has_id-append i xs ys)

fresh_head :
    (m : ChatMessage) (old ys : List ChatMessage)
    → fresh (m ∷ old) ys ≡ true
    → truthy m.id ≡ true
    → has_id m.id ys ≡ false
fresh_head m old [] h t = refl
fresh_head m old (y ∷ ys) h t =
    ground (arith, h, t, same_id_sym y.id m.id, same_id-truthy y.id m.id, fresh_head m old ys)

fresh_tail :
    (m : ChatMessage) (old ys : List ChatMessage) → fresh (m ∷ old) ys ≡ true → fresh old ys ≡ true
fresh_tail m old [] h = refl
fresh_tail m old (y ∷ ys) h = ground (arith, h, fresh_tail m old ys)

pub distinct_ids-append :
    (xs ys : List ChatMessage)
    → distinct_ids xs ≡ true
    → distinct_ids ys ≡ true
    → fresh xs ys ≡ true
    → distinct_ids (xs ++ ys) ≡ true
distinct_ids-append [] ys h k f = k
distinct_ids-append (x ∷ xs) ys h k f = ground (
  arith,
  h,
  f,
  has_id-append x.id xs ys,
  fresh_head x xs ys f,
  distinct_ids-append xs ys,
  fresh_tail x xs ys f,
  k,
)

has_id_of_new :
    (i : Option String) (old ys : List ChatMessage)
    → has_id i ys ≡ false
    → has_id i (new_messages old ys) ≡ false
unfolding new_messages
has_id_of_new i old [] h = refl
has_id_of_new i old (y ∷ ys) h = ground (arith, h, has_id_of_new i old ys)

pub new_messages-distinct :
    (old ys : List ChatMessage) → distinct_ids ys ≡ true → distinct_ids (new_messages old ys) ≡ true
unfolding new_messages
new_messages-distinct old [] h = refl
new_messages-distinct old (y ∷ ys) h =
    ground (arith, h, has_id_of_new y.id old ys, new_messages-distinct old ys)

pub new_messages-fresh : (old ys : List ChatMessage) → fresh old (new_messages old ys) ≡ true
unfolding new_messages
new_messages-fresh old [] = refl
new_messages-fresh old (y ∷ ys) = ground (arith, new_messages-fresh old ys)
