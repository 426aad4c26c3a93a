-- ===== src/Support/Clean.antt =====
-- web/src/pages/Support.tsx: what the cleaning of the diagnostics gives.
use sentry_usb.Base.{
  ℕ, ◌≡◌, refl, ap, ◌∙◌, Bool, true, false, not, ◌&&◌, List, [], ◌∷◌, arith, ◌==◌, if◌then◌else◌,
  All, Bool-cases, inl, inr,
}
use sentry_usb.Support.Sanitize.{
  strip_escapes, is_surrogate, replace_surrogates, is_control, strip_controls, sanitize,
}

-- neither a control character, but for tab and line ends, nor half of a surrogate pair
abbrev pub is_plain : ℕ → Bool
is_plain c = not (is_control c) && not (is_surrogate c)

abbrev pub IsPlain : List ℕ → Type 0
IsPlain s = All (λ c. is_plain c ≡ true) s

abbrev only_plain : ℕ → ℕ
only_plain c = if is_surrogate c then 0xfffd else c

replaced : (c : ℕ) → is_surrogate (only_plain c) ≡ false
replaced c = ground arith

cleaned-IsPlain : (s : List ℕ) → IsPlain (strip_controls (replace_surrogates s))
unfolding strip_controls replace_surrogates
cleaned-IsPlain [] = tt
cleaned-IsPlain (c ∷ s) = elim (Bool-cases (is_control (only_plain c))) [
  | inl control ↦ rw (control, All) (cleaned-IsPlain s)
  | inr kept ↦ rw (kept, All) (ground (arith, kept, replaced c), cleaned-IsPlain s)
]

plain_escapes : (s : List ℕ) → IsPlain s → strip_escapes 0 s ≡ s
unfolding strip_escapes
plain_escapes [] h = refl
plain_escapes (c ∷ s) (p, h) =
    let other : (c == 27) ≡ false = ground (arith, p) in rw (other, plain_escapes s h) refl

plain_surrogates : (s : List ℕ) → IsPlain s → replace_surrogates s ≡ s
unfolding replace_surrogates
plain_surrogates [] h = refl
plain_surrogates (c ∷ s) (p, h) =
    let other : is_surrogate c ≡ false = ground (arith, p) in rw (other, plain_surrogates s h) refl

plain_controls : (s : List ℕ) → IsPlain s → strip_controls s ≡ s
unfolding strip_controls
plain_controls [] h = refl
plain_controls (c ∷ s) (p, h) =
    let other : is_control c ≡ false = ground (arith, p) in rw (other, plain_controls s h) refl

sanitized-IsPlain : (s : List ℕ) → IsPlain (sanitize s)
unfolding sanitize
sanitized-IsPlain s = cleaned-IsPlain (strip_escapes 0 s)

sanitize_plain : (s : List ℕ) → IsPlain s → sanitize s ≡ s
unfolding sanitize
sanitize_plain s h =
    ap (λ t. strip_controls (replace_surrogates t)) (plain_escapes s h)
    ∙ ap strip_controls (plain_surrogates s h)
    ∙ plain_controls s h

-- Two surrogates in a row, which is how a character beyond the basic plane is written.
pair_replaced :
    (high low : ℕ) (s : List ℕ)
    → is_surrogate high ≡ true
    → is_surrogate low ≡ true
    → sanitize (high ∷ low ∷ s) ≡ 0xfffd ∷ 0xfffd ∷ sanitize s
unfolding sanitize strip_escapes replace_surrogates strip_controls
pair_replaced high low s h l =
    let first : (high == 27) ≡ false = ground (arith, h) in
    let second : (low == 27) ≡ false = ground (arith, l) in rw (first, second, h, l) refl

-- The cleaned text has no control character but tabs and line ends and no surrogate, and cleaning
-- it again changes nothing. A character that is written as a pair of surrogates comes out as two
-- replacement characters, at the start of any text.
sanitize-IsPlain :
    (s : List ℕ) (high low : ℕ)
    → is_surrogate high ≡ true
    → is_surrogate low ≡ true
    → IsPlain (sanitize s)
      × (sanitize (sanitize s) ≡ sanitize s)
      × (sanitize (high ∷ low ∷ s) ≡ 0xfffd ∷ 0xfffd ∷ sanitize s)
sanitize-IsPlain s high low h l =
    let plain : IsPlain (sanitize s) = sanitized-IsPlain s in
    (plain, sanitize_plain (sanitize s) plain, pair_replaced high low s h l)
