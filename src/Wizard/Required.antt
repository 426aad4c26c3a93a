-- ===== src/Wizard/Required.antt =====
-- web/src/components/setup/SetupWizard.tsx: when a step has no error, told by tables of fields.
use sentry_usb.Base.{
  ◌≡◌, ◌↔◌, refl, Bool, true, false, not, ◌&&◌, Option, none, some, List, [], ◌∷◌, String, str_eq,
  eq_iff, arith, if◌then◌else◌, any, All, Option-cases, Bool-cases, inl, inr, subst, sym,
}
use sentry_usb.Base.Dict.{get}
use sentry_usb.Base.Text.{has_text, is_empty-trim}
use sentry_usb.Wizard.Validation.{
  FormData, filled, or_default, archive_error, archive_error_of, holds, Provider, provider_error,
  notifications_error, required_per_provider,
}

-- The field has a value with some character that is no white space.
abbrev pub IsFilled : FormData → String → Type 0
IsFilled form k = (v : String) × (get k form ≡ some v) × (has_text v ≡ true)

filled→IsFilled : (form : FormData) (k : String) → filled form k ≡ true → IsFilled form k
unfolding filled
filled→IsFilled form k h = elim (Option-cases (get k form)) [
  | inl missing ↦ absurd (ground arith)
  | inr (v, found) ↦ (v, found, ground (arith, is_empty-trim v))
]

IsFilled→filled : (form : FormData) (k : String) → IsFilled form k → filled form k ≡ true
unfolding filled
IsFilled→filled form k (v, found, text) = ground (arith, is_empty-trim v)

-- the fields that each archive system asks for
abbrev pub archive_fields : String → List String
archive_fields system =
    if str_eq system "cifs"
    then "ARCHIVE_SERVER" ∷ "SHARE_NAME" ∷ "SHARE_USER" ∷ "SHARE_PASSWORD" ∷ []
    else if str_eq system "rsync"
    then "RSYNC_SERVER" ∷ "RSYNC_USER" ∷ "RSYNC_PATH" ∷ []
    else if str_eq system "rclone"
    then "RCLONE_DRIVE" ∷ "RCLONE_PATH" ∷ []
    else if str_eq system "nfs"
    then "ARCHIVE_SERVER" ∷ "SHARE_NAME" ∷ []
    else []

all_filled : FormData → List String → Bool
all_filled form [] = true
all_filled form (k ∷ ks) = filled form k && all_filled form ks

to_All : (form : FormData) (ks : List String) → all_filled form ks ≡ true → All (IsFilled form) ks
unfolding all_filled
to_All form [] h = tt
to_All form (k ∷ ks) h = (filled→IsFilled form k (ground arith), to_All form ks (ground arith))

from_All : (form : FormData) (ks : List String) → All (IsFilled form) ks → all_filled form ks ≡ true
unfolding all_filled
from_All form [] h = refl
from_All form (k ∷ ks) (h, hs) = ground (arith, IsFilled→filled form k h, from_All form ks hs)

abbrev is_none : Option String → Bool
is_none none = true
is_none (some s) = false

module _ (form : FormData) where
  abbrev Agrees : String → Type 0
  Agrees system = is_none (archive_error_of system form) ≡ all_filled form (archive_fields system)

  at_system : (s name : String) → Agrees name → ((str_eq s name ≡ false) → Agrees s) → Agrees s
  at_system s name here other = elim (Bool-cases (str_eq s name)) [
    | inl same ↦ subst Agrees (sym ((eq_iff s name).0 same)) here
    | inr differ ↦ other differ
  ]

  at_none : Agrees "none"
  unfolding archive_error_of all_filled
  at_none = refl

  at_cifs : Agrees "cifs"
  unfolding archive_error_of all_filled
  at_cifs = ground arith

  at_rsync : Agrees "rsync"
  unfolding archive_error_of all_filled
  at_rsync = ground arith

  at_rclone : Agrees "rclone"
  unfolding archive_error_of all_filled
  at_rclone = ground arith

  at_nfs : Agrees "nfs"
  unfolding archive_error_of all_filled
  at_nfs = ground arith

  archive_all_filled : (s : String) → Agrees s
  unfolding archive_error_of all_filled
  archive_all_filled s = at_system s "none" at_none λ n0. at_system s "cifs" at_cifs λ n1.
      at_system s "rsync" at_rsync λ n2.
        at_system s "rclone" at_rclone λ n3. at_system s "nfs" at_nfs λ n4. rw (n0, n1, n2, n3, n4)

-- The archive step has no error exactly when every field that the chosen system asks for has a
-- value that is not blank; the system is "cifs" where the form names none, and "none" and any
-- unknown system ask for nothing.
pub archive_error-eq-none_iff :
    (form : FormData)
    → (archive_error form ≡ none)
      ↔ All (IsFilled form) (archive_fields (or_default (get "ARCHIVE_SYSTEM" form) "cifs"))
unfolding archive_error
archive_error-eq-none_iff form =
    let system = or_default (get "ARCHIVE_SYSTEM" form) "cifs" in
    (
      λ e. to_All form _ (ground (arith, archive_all_filled form system)),
      λ a. ground (arith, archive_all_filled form system, from_All form _ a),
    )

abbrev pub Complete : FormData → Provider → Type 0
Complete form p = get p.enable_field form ≡ some "true" → All (IsFilled form) p.fields

any_unfilled :
    (form : FormData) (ks : List String)
    → any (λ f. not (filled form f)) ks ≡ not (all_filled form ks)
unfolding all_filled
any_unfilled form [] = refl
any_unfilled form (k ∷ ks) = ground (arith, any_unfilled form ks)

holds_iff : (form : FormData) (k v : String) → (holds form k v ≡ true) ↔ (get k form ≡ some v)
holds_iff form k v = elim (Option-cases (get k form)) [
  | inl missing ↦ (λ h. ground arith, λ e. cc)
  | inr (w, found) ↦ (λ h. ground (arith, eq_iff w v), λ e. ground (arith, eq_iff w v))
]

provider_error-to :
    (form : FormData) (ps : List Provider) → provider_error form ps ≡ none → All (Complete form) ps
unfolding provider_error
provider_error-to form [] e = tt
provider_error-to form (p ∷ ps) e = (
  λ on.
      to_All form p.fields
        (ground (arith, any_unfilled form p.fields, (holds_iff form p.enable_field "true").1 on)),
  provider_error-to form ps (ground arith),
)

provider_error-from :
    (form : FormData) (ps : List Provider) → All (Complete form) ps → provider_error form ps ≡ none
unfolding provider_error
provider_error-from form [] h = refl
provider_error-from form (p ∷ ps) (h, hs) = elim (Bool-cases (holds form p.enable_field "true")) [
  | inl on ↦ ground (
    arith,
    any_unfilled form p.fields,
    provider_error-from form ps hs,
    from_All form p.fields (h ((holds_iff form p.enable_field "true").0 on)),
  )
  | inr off ↦ ground (arith, provider_error-from form ps hs)
]

-- The notifications step has no error exactly when, for each of the ten providers of the table
-- whose switch is "true", every field of the provider has a value that is not blank.
notifications_error-eq-none_iff :
    (form : FormData)
    → (notifications_error form ≡ none) ↔ All (Complete form) required_per_provider
unfolding notifications_error
notifications_error-eq-none_iff form =
    (provider_error-to form required_per_provider, provider_error-from form required_per_provider)
