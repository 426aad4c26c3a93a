-- ===== src/Files/Paths.antt =====
-- web/src/pages/Files.tsx: paths as texts, and the parent of a path.
use sentry_usb.Base.{
  ◌+◌, ◌≤◌, ◌≡◌, ◌⊎◌, refl, sym, ap, ◌∙◌, subst, true, false, [], ◌∷◌, String, str_eq, eq_iff,
  arith, Bool-cases, inl, inr,
}
use sentry_usb.Base.Text.{is_empty, utf16_length, concat}
use sentry_usb.Files.Browser.{has_slash, parent_of}
use Prim.Native.String.{[], ◌∷◌}

-- the path of an entry in a directory
unfoldable pub child : String → String → String
unfolding concat
child path name = concat path (concat "/" name)

pub has_slash-child : (path name : String) → has_slash (child path name) ≡ true
unfolding concat child
has_slash-child [] name = refl
has_slash-child (c ∷ path) name = ground (arith, has_slash-child path name)

pub has_slash-concat : (s t : String) → has_slash t ≡ true → has_slash (concat s t) ≡ true
unfolding concat
has_slash-concat [] t h = h
has_slash-concat (c ∷ s) t h = ground (arith, has_slash-concat s t h)

pub parent_no_slash : (s : String) → has_slash s ≡ false → parent_of s ≡ []
unfolding parent_of
parent_no_slash [] h = refl
parent_no_slash (c ∷ s) h = ground (arith, h)

-- The parent of an entry's path is its directory.
pub parent_of-child :
    (path name : String) → has_slash name ≡ false → parent_of (child path name) ≡ path
unfolding parent_of concat child
parent_of-child [] name h = rw h refl
parent_of-child (c ∷ path) name h =
    rw (has_slash-child path name) (ap (λ r. c ∷ r) (parent_of-child path name h))

-- The parent of a text behind another, where the second one has a slash.
pub parent_of-concat :
    (s t : String) → has_slash t ≡ true → parent_of (concat s t) ≡ concat s (parent_of t)
unfolding parent_of concat
parent_of-concat [] t h = refl
parent_of-concat (c ∷ s) t h =
    rw (has_slash-concat s t h) (ap (λ r. c ∷ r) (parent_of-concat s t h))

pub utf16_length-concat :
    (s t : String) → utf16_length (concat s t) ≡ utf16_length s + utf16_length t
unfolding utf16_length concat
utf16_length-concat [] t = omega arith
utf16_length-concat (c ∷ s) t = omega (arith, utf16_length-concat s t)

-- the path is the base, or has the base and a slash in front
abbrev pub IsWithin : String → String → Type 0
IsWithin base path = (path ≡ base) ⊎ ((r : String) × (path ≡ child base r))

pub slash_longer : (r : String) → 1 ≤ utf16_length (concat "/" r)
unfolding concat utf16_length
slash_longer r = ground arith

pub child_longer : (base r : String) → utf16_length base + 1 ≤ utf16_length (child base r)
unfolding child
child_longer base r = omega (arith, utf16_length-concat base (concat "/" r), slash_longer r)

pub child_other : (base r : String) → str_eq (child base r) base ≡ false
child_other base r = elim (Bool-cases (str_eq (child base r) base)) [
  | inl same ↦
      let e = ap utf16_length ((eq_iff (child base r) base).0 same) in
      ground (arith, e, child_longer base r)
  | inr other ↦ other
]

pub parent_of_slash :
    (r : String) → has_slash r ≡ true → parent_of (concat "/" r) ≡ concat "/" (parent_of r)
unfolding parent_of concat
parent_of_slash r h = rw h refl

-- The parent of a path below a base is the base or below it.
pub parent_of-IsWithin : (base r : String) → IsWithin base (parent_of (child base r))
unfolding child concat
parent_of-IsWithin base r = elim (Bool-cases (has_slash r)) [
  | inl deeper ↦ inr (
    parent_of r,
    parent_of-concat base (concat "/" r) refl ∙ ap (concat base) (parent_of_slash r deeper),
  )
  | inr last ↦ inl (parent_of-child base r last)
]

pub IsWithin-length :
    (base path : String) → IsWithin base path → utf16_length base ≤ utf16_length path
IsWithin-length base path (inl e) =
    subst (λ p. utf16_length base ≤ utf16_length p) (sym e) (omega arith)
IsWithin-length base path (inr (r, e)) =
    subst (λ p. utf16_length base ≤ utf16_length p) (sym e) (omega (arith, child_longer base r))

pub has_text_of_longer :
    (s t : String) → is_empty s ≡ false → utf16_length s ≤ utf16_length t → is_empty t ≡ false
unfolding utf16_length
has_text_of_longer [] t h le = ground (arith, h)
has_text_of_longer (c ∷ s) [] h le = ground (arith, le)
has_text_of_longer (c ∷ s) (d ∷ t) h le = refl

pub concat_assoc : (s t u : String) → concat (concat s t) u ≡ concat s (concat t u)
unfolding concat
concat_assoc [] t u = refl
concat_assoc (c ∷ s) t u = ap (λ r. c ∷ r) (concat_assoc s t u)

pub child_below :
    (base path name : String) → IsWithin base path → (r : String) × (child path name ≡ child base r)
unfolding child concat
child_below base path name (inl e) = (name, ap (λ p. child p name) e)
child_below base path name (inr (r, e)) =
    (child r name, ap (λ p. child p name) e ∙ concat_assoc base (concat "/" r) (concat "/" name))

pub child_not_empty : (path name : String) → is_empty (child path name) ≡ false
unfolding child concat
child_not_empty [] name = refl
child_not_empty (c ∷ path) name = refl
