-- ===== src/Terminal/Output.antt =====
-- web/src/pages/Terminal.tsx: what the widget shows, and when a session ends.
use sentry_usb.Base.{
  ℕ, ◌≡◌, refl, ap, ◌∙◌, sym, Bool, true, false, Option, none, some, List, [], ◌∷◌, ◌++◌, String,
  if◌then◌else◌, arith, Bool-cases, inl, inr,
}
use sentry_usb.Base.Text.{is_empty}
use sentry_usb.Terminal.{
  Terminal, Screen, show_output, receive, output, make_screen, init_xterm, is_connected,
}

append_assoc : (xs ys zs : List String) → (xs ++ ys) ++ zs ≡ xs ++ (ys ++ zs)
append_assoc [] ys zs = refl
append_assoc (x ∷ xs) ys zs = ap (λ l. x ∷ l) (append_assoc xs ys zs)

append_nil : (xs : List String) → xs ++ [] ≡ xs
append_nil [] = refl
append_nil (x ∷ xs) = ap (λ l. x ∷ l) (append_nil xs)

abbrev pub written_of : Option Screen → List String
written_of none = []
written_of (some screen) = screen.written

-- what was written, and what waits to be written
abbrev pub seen : Terminal → List String
seen s = written_of s.xterm ++ s.pending_output

-- a text that comes from a socket, or a run of the effect
pub data Event : Type 0 where
  came : ℕ → String → Event
  rendered : Event

unfoldable pub step : Event → Terminal → Terminal
unfolding receive init_xterm
step (came i text) s = receive i (output (some text)) s
step rendered s = init_xterm s

abbrev pub run : List Event → Terminal → Terminal
run [] s = s
run (e ∷ es) s = run es (step e s)

-- the texts that are not empty, in the order in which they came
abbrev one : String → List String
one text = if is_empty text then [] else text ∷ []

abbrev pub texts : List Event → List String
texts [] = []
texts (came i text ∷ es) = one text ++ texts es
texts (rendered ∷ es) = texts es

-- Once there is a widget nothing waits.
abbrev empty : List String → Bool
empty [] = true
empty (x ∷ xs) = false

abbrev settled : Option Screen → List String → Bool
settled none pending = true
settled (some screen) pending = empty pending

abbrev pub orderly : Terminal → Bool
orderly s = settled s.xterm s.pending_output

empty_nil : (xs : List String) → empty xs ≡ true → xs ≡ []
empty_nil [] h = refl
empty_nil (x ∷ xs) h = ground (arith, h)

-- Two lists are kept: what is seen, and whether nothing waits.
record IsKept (text : List String) (s t : Terminal) : Type 0 where
  seen_is : seen t ≡ seen s ++ text
  orderly_is : orderly t ≡ true

shown :
    (text : String) (s : Terminal) (x : Option Screen)
    → s.xterm ≡ x
    → settled x s.pending_output ≡ true
    → IsKept (text ∷ []) s (show_output text s)
unfolding show_output
shown text s none e h = rw e (record { seen_is = refl; orderly_is = refl })
shown text s (some screen) e h =
    let nothing : s.pending_output ≡ [] = empty_nil s.pending_output h in
    rw (e, nothing)
      (record {
        seen_is =
            append_nil (screen.written ++ text ∷ [])
            ∙ ap (λ l. l ++ text ∷ []) (sym (append_nil screen.written));
        orderly_is = refl;
      })

made :
    (s : Terminal) (i : Option ℕ) (x : Option Screen)
    → s.xterm ≡ x
    → settled x s.pending_output ≡ true
    → IsKept [] s (make_screen i x s)
made s none x e h = record { seen_is = sym (append_nil (seen s)); orderly_is = rw e h }
made s (some i) (some screen) e h = record {
  seen_is = sym (append_nil (seen s));
  orderly_is = rw e h;
}
made s (some i) none e h = rw e (record { seen_is = refl; orderly_is = refl })

step-IsKept : (e : Event) (s : Terminal) → orderly s ≡ true → IsKept (texts (e ∷ [])) s (step e s)
unfolding step receive init_xterm
step-IsKept (came i text) s h = elim (Bool-cases (is_empty text)) [
  | inl nothing ↦ rw nothing (record { seen_is = sym (append_nil (seen s)); orderly_is = h })
  | inr something ↦ rw something (shown text s s.xterm refl h)
]
step-IsKept rendered s h = elim (Bool-cases (is_connected s.state)) [
  | inl on ↦ rw on (made s s.ws s.xterm refl h)
  | inr off ↦ rw off (record { seen_is = sym (append_nil (seen s)); orderly_is = h })
]

texts_cons : (e : Event) (es : List Event) → texts (e ∷ es) ≡ texts (e ∷ []) ++ texts es
texts_cons (came i text) es = ap (λ l. l ++ texts es) (sym (append_nil (one text)))
texts_cons rendered es = refl

run-IsKept : (es : List Event) (s : Terminal) → orderly s ≡ true → IsKept (texts es) s (run es s)
run-IsKept [] s h = record { seen_is = sym (append_nil (seen s)); orderly_is = h }
run-IsKept (e ∷ es) s h =
    let first = step-IsKept e s h in
    let rest = run-IsKept es (step e s) first.orderly_is in
    record {
      seen_is =
          rest.seen_is
          ∙ ap (λ l. l ++ texts es) first.seen_is
          ∙ append_assoc (seen s) (texts (e ∷ [])) (texts es)
          ∙ ap (λ l. seen s ++ l) (sym (texts_cons e es));
      orderly_is = rest.orderly_is;
    }

-- The session is on, with a socket.
record IsOn (s : Terminal) : Type 0 where
  state_is : is_connected s.state ≡ true
  socket : ℕ
  socket_is : s.ws ≡ some socket

shown-IsOn :
    (text : String) (s : Terminal) (x : Option Screen)
    → s.xterm ≡ x
    → IsOn s
    → IsOn (show_output text s)
unfolding show_output
shown-IsOn text s none e h =
    rw e (record { state_is = h.state_is; socket = h.socket; socket_is = h.socket_is })
shown-IsOn text s (some screen) e h =
    rw e (record { state_is = h.state_is; socket = h.socket; socket_is = h.socket_is })

made-IsOn : (s : Terminal) (i : Option ℕ) (x : Option Screen) → IsOn s → IsOn (make_screen i x s)
made-IsOn s none x h = h
made-IsOn s (some i) (some screen) h = h
made-IsOn s (some i) none h = record {
  state_is = h.state_is;
  socket = h.socket;
  socket_is = h.socket_is;
}

step-IsOn : (e : Event) (s : Terminal) → IsOn s → IsOn (step e s)
unfolding step receive init_xterm
step-IsOn (came i text) s h = elim (Bool-cases (is_empty text)) [
  | inl nothing ↦ rw nothing h
  | inr something ↦ rw something (shown-IsOn text s s.xterm refl h)
]
step-IsOn rendered s h = elim (Bool-cases (is_connected s.state)) [
  | inl on ↦ rw on (made-IsOn s s.ws s.xterm h)
  | inr off ↦ rw off h
]

run-IsOn : (es : List Event) (s : Terminal) → IsOn s → IsOn (run es s)
run-IsOn [] s h = h
run-IsOn (e ∷ es) s h = run-IsOn es (step e s) (step-IsOn e s h)

-- After the effect of a session that is on, all that is seen is in the widget.
abbrev has_socket : Option ℕ → Bool
has_socket none = false
has_socket (some i) = true

made-written :
    (s : Terminal) (o : Option ℕ) (x : Option Screen)
    → has_socket o ≡ true
    → s.xterm ≡ x
    → settled x s.pending_output ≡ true
    → written_of (make_screen o x s).xterm ≡ seen s
made-written s none x k e h = ground (arith, k)
made-written s (some i) none k e h = rw e refl
made-written s (some i) (some screen) k e h =
    rw (e, empty_nil s.pending_output h) (sym (append_nil screen.written))

init_xterm-written :
    (s : Terminal) → IsOn s → orderly s ≡ true → written_of (init_xterm s).xterm ≡ seen s
unfolding init_xterm
init_xterm-written s on h =
    rw (on.state_is) (made-written s s.ws s.xterm (ap has_socket on.socket_is) refl h)

-- In a session that is on, with its socket and nothing received yet, whatever texts come and however
-- often the effect runs in between: after the effect has run, the widget has exactly the texts that
-- are not empty, in the order in which they came.
pub init_xterm-texts :
    (s : Terminal) (i : ℕ) (es : List Event)
    → is_connected s.state ≡ true
    → s.ws ≡ some i
    → s.xterm ≡ none
    → s.pending_output ≡ []
    → written_of (init_xterm (run es s)).xterm ≡ texts es
init_xterm-texts s i es c w x p =
    let fresh : orderly s ≡ true = rw x refl in
    let nothing : seen s ≡ [] = rw (x, p) refl in
    let on = run-IsOn es s (record { state_is = c; socket = i; socket_is = w }) in
    let kept = run-IsKept es s fresh in
    init_xterm-written (run es s) on kept.orderly_is
    ∙ kept.seen_is
    ∙ ap (λ l. l ++ texts es) nothing
