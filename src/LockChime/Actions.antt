-- ===== src/LockChime/Actions.antt =====
-- web/src/pages/LockChime.tsx: what the handlers of the library leave behind.
use sentry_usb.Base.{
  ◌≡◌, refl, Bool, true, false, not, ◌&&◌, Option, none, some, String, arith, Bool-cases, inl, inr,
}
use sentry_usb.Base.Exec.{
  Answer, answered, refused, unreachable, Done, ask, try_catch, finally_do, modify, when, ◌>>=◌,
  ◌>>◌,
}
use sentry_usb.LockChime.Library.{
  Listing, ToastKind, success, error, Library, show_toast, fetch_sounds, activate_body,
  handle_activate, clear_body, handle_clear, delete_body, handle_delete, randomize_body,
  handle_randomize_now, is_playing,
}

-- the handlers, each with the answer to its request
pub data Action : Type 0 where
  activate : String → Answer Bool → Action
  clear : Answer Done → Action
  delete : String → Answer Done → Action
  randomize : Answer (String × Bool) → Action

unfoldable pub perform : Action → Answer Listing → Library → Library
unfolding handle_activate handle_clear handle_delete handle_randomize_now
perform (activate name a) listed s = handle_activate name a listed s
perform (clear a) listed s = handle_clear a listed s
perform (delete name a) listed s = handle_delete name a listed s
perform (randomize a) listed s = handle_randomize_now a listed s

-- the text of an answer that is no answer
abbrev pub refusal_of {ℓ} : {A : Type ℓ} → Answer A → Option String
refusal_of (answered a) = none
refusal_of (refused text) = some text
refusal_of (unreachable text) = some text

abbrev pub refusal : Action → Option String
refusal (activate name a) = refusal_of a
refusal (clear a) = refusal_of a
refusal (delete name a) = refusal_of a
refusal (randomize a) = refusal_of a

-- What a handler does at its end to the list and the toast: nothing and the refusal if its request is
-- refused, else the new list, or a text that there is none.
abbrev listed_or : Answer Listing → Listing → Listing
listed_or (answered l) old = l
listed_or (refused text) old = old
listed_or (unreachable text) old = old

abbrev pub expected_listing : Option String → Answer Listing → Listing → Listing
expected_listing none listed old = listed_or listed old
expected_listing (some text) listed old = old

abbrev kind_of : Answer Listing → ToastKind
kind_of (answered l) = success
kind_of (refused text) = error
kind_of (unreachable text) = error

abbrev pub expected_kind : Option String → Answer Listing → ToastKind
expected_kind none listed = kind_of listed
expected_kind (some text) listed = error

abbrev pub HasToast : Option (String × ToastKind) → ToastKind → Type 0
HasToast t kind = (text : String) × (t ≡ some (text, kind))

abbrev no_name : Option String → Bool
no_name none = true
no_name (some name) = false

abbrev pub at_rest : Library → Bool
at_rest s =
    no_name s.activating
    && no_name s.deleting
    && not s.clearing
    && not s.randomizing
    && not s.uploading

pub record IsPerformed (action : Action) (listed : Answer Listing) (s t : Library) : Type 0 where
  pub rest : at_rest t ≡ true
  pub listing : t.listing ≡ expected_listing (refusal action) listed s.listing
  pub toast : HasToast t.toast (expected_kind (refusal action) listed)

performed :
    (action : Action) (listed : Answer Listing) (s : Library)
    → at_rest s ≡ true
    → IsPerformed action listed s (perform action listed s)
unfolding perform activate_body clear_body delete_body randomize_body ask try_catch finally_do
    modify when show_toast fetch_sounds ◌>>=◌ ◌>>◌
performed (activate name (answered b)) (answered l) s h = record {
  rest = ground (arith, h);
  listing = refl;
  toast = (_, refl);
}
performed (activate name (answered b)) (refused e) s h = record {
  rest = ground (arith, h);
  listing = refl;
  toast = (_, refl);
}
performed (activate name (answered b)) (unreachable e) s h = record {
  rest = ground (arith, h);
  listing = refl;
  toast = (_, refl);
}
performed (activate name (refused text)) listed s h = record {
  rest = ground (arith, h);
  listing = refl;
  toast = (_, refl);
}
performed (activate name (unreachable text)) listed s h = record {
  rest = ground (arith, h);
  listing = refl;
  toast = (_, refl);
}
performed (clear (answered b)) (answered l) s h = record {
  rest = ground (arith, h);
  listing = refl;
  toast = (_, refl);
}
performed (clear (answered b)) (refused e) s h = record {
  rest = ground (arith, h);
  listing = refl;
  toast = (_, refl);
}
performed (clear (answered b)) (unreachable e) s h = record {
  rest = ground (arith, h);
  listing = refl;
  toast = (_, refl);
}
performed (clear (refused text)) listed s h = record {
  rest = ground (arith, h);
  listing = refl;
  toast = (_, refl);
}
performed (clear (unreachable text)) listed s h = record {
  rest = ground (arith, h);
  listing = refl;
  toast = (_, refl);
}
performed (delete name (answered b)) (answered l) s h =
    elim (Bool-cases (is_playing name s.playing_name)) [
      | inl playing ↦
          rw playing (record { rest = ground (arith, h); listing = refl; toast = (_, refl) })
      | inr other ↦
          rw other (record { rest = ground (arith, h); listing = refl; toast = (_, refl) })
    ]
performed (delete name (answered b)) (refused e) s h =
    elim (Bool-cases (is_playing name s.playing_name)) [
      | inl playing ↦
          rw playing (record { rest = ground (arith, h); listing = refl; toast = (_, refl) })
      | inr other ↦
          rw other (record { rest = ground (arith, h); listing = refl; toast = (_, refl) })
    ]
performed (delete name (answered b)) (unreachable e) s h =
    elim (Bool-cases (is_playing name s.playing_name)) [
      | inl playing ↦
          rw playing (record { rest = ground (arith, h); listing = refl; toast = (_, refl) })
      | inr other ↦
          rw other (record { rest = ground (arith, h); listing = refl; toast = (_, refl) })
    ]
performed (delete name (refused text)) listed s h = record {
  rest = ground (arith, h);
  listing = refl;
  toast = (_, refl);
}
performed (delete name (unreachable text)) listed s h = record {
  rest = ground (arith, h);
  listing = refl;
  toast = (_, refl);
}
performed (randomize (answered b)) (answered l) s h = record {
  rest = ground (arith, h);
  listing = refl;
  toast = (_, refl);
}
performed (randomize (answered b)) (refused e) s h = record {
  rest = ground (arith, h);
  listing = refl;
  toast = (_, refl);
}
performed (randomize (answered b)) (unreachable e) s h = record {
  rest = ground (arith, h);
  listing = refl;
  toast = (_, refl);
}
performed (randomize (refused text)) listed s h = record {
  rest = ground (arith, h);
  listing = refl;
  toast = (_, refl);
}
performed (randomize (unreachable text)) listed s h = record {
  rest = ground (arith, h);
  listing = refl;
  toast = (_, refl);
}

-- A handler that is started while no other one runs leaves none running, whatever the server answers.
-- If its request is refused the list stays and an error is shown; if it is accepted and the list can
-- be read again, that list and a success are shown; if the list cannot be read, the old one stays and
-- an error is shown, although the request was accepted.
pub perform-outcome :
    (action : Action) (listed : Answer Listing) (s : Library)
    → at_rest s ≡ true
    → IsPerformed action listed s (perform action listed s)
perform-outcome action listed s h = performed action listed s h
