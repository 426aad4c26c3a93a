-- ===== src/Wizard/Saved.antt =====
-- web/src/components/setup/SetupWizard.tsx: the sizes as they are sent, against those of the form.
use Prim.Native.String
use Prim.Native.String.{String, [], ◌∷◌}
use text.Mathlib.TextLemmas.{cons-append}
use sentry_usb.Base.{
  ◌≡◌, refl, Bool, none, if◌then◌else◌, List, All, eq_iff, subst, sym, ap, ◌∙◌, true, false, ◌&&◌,
  Option, some, str_eq, arith, any, Bool-cases, inl, inr,
}
use sentry_usb.Base.Text.{starts_with_char, is_empty, is_digit, all_digits}
use sentry_usb.Base.Dict.{get}
use sentry_usb.Wizard.Validation.{FormData}
use sentry_usb.Wizard.Changes.{
  destructive_size_keys, strip_unit, normalize_size_value, size_changes,
}
use sentry_usb.Wizard.Apply.{size_fields, sent_value, is_sent, config_data}

strip_unit-append_unit : (s : String) → strip_unit (String.◌++◌ s "G") ≡ s
unfolding strip_unit
strip_unit-append_unit [] = refl
strip_unit-append_unit (c ∷ []) = rw cons-append
strip_unit-append_unit (c ∷ d ∷ s) =
    rw (cons-append, cons-append)
      (ap (◌∷◌ c) (ap strip_unit (sym (cons-append d s "G")) ∙ strip_unit-append_unit (d ∷ s)))

strip_unit_of_digits : (s : String) → all_digits s ≡ true → strip_unit s ≡ s
unfolding strip_unit is_digit
strip_unit_of_digits [] h = refl
strip_unit_of_digits (c ∷ []) h = ground arith
strip_unit_of_digits (c ∷ d ∷ s) h = ap (◌∷◌ c) (strip_unit_of_digits (d ∷ s) (ground arith))

is_empty-append_unit : (s : String) → is_empty (String.◌++◌ s "G") ≡ false
is_empty-append_unit [] = refl
is_empty-append_unit (c ∷ s) = rw cons-append

normalize-append_unit :
    (v : String)
    → all_digits v ≡ true
    → is_empty v ≡ false
    → normalize_size_value (some (String.◌++◌ v "G")) ≡ normalize_size_value (some v)
unfolding normalize_size_value
normalize-append_unit v digits there =
    rw (is_empty-append_unit v, there, strip_unit-append_unit v, strip_unit_of_digits v digits)

is_empty_nil : (v : String) → is_empty v ≡ true → v ≡ ""
is_empty_nil [] h = refl
is_empty_nil (c ∷ s) h = ground (arith, h)

abbrev pub is_missing : Option String → Bool
is_missing none = true
is_missing (some v) = false

-- a key of the form that is there once, as in an object
abbrev pub distinct : FormData → Bool
distinct List.[] = true
distinct (List.◌∷◌ (k, v) form) = is_missing (get k form) && distinct form

-- the form's value of a size as it is to be sent: a plain number with the unit "G", any other text
-- as it is, and nothing for an empty one
abbrev pub with_unit : Option String → Option String
with_unit none = none
with_unit (some v) =
    if is_empty v then none else if all_digits v then some (String.◌++◌ v "G") else some v

missing_none : (o : Option String) → is_missing o ≡ true → o ≡ none
missing_none none h = refl
missing_none (some v) h = ground (arith, h)

abbrev as_it_is : Option String → Option String
as_it_is none = none
as_it_is (some v) = if is_empty v then none else some v

normalize-as_it_is :
    (o : Option String) → normalize_size_value (as_it_is o) ≡ normalize_size_value o
normalize-as_it_is none = refl
normalize-as_it_is (some v) = elim (Bool-cases (is_empty v)) [
  | inl nothing ↦ unfold normalize_size_value in rw nothing refl
  | inr there ↦ rw there refl
]

size_changes-none :
    (current original : FormData) (table : List (String × String))
    → All
        (λ r. normalize_size_value (get r.0 current) ≡ normalize_size_value (get r.0 original))
        table
    → size_changes current original table ≡ List.[]
unfolding size_changes
size_changes-none current original List.[] h = refl
size_changes-none current original (List.◌∷◌ (k, l) table) (e, h) =
    let same : str_eq (normalize_size_value (get k current)) (normalize_size_value (get k original))
        ≡ true =
      (eq_iff (normalize_size_value (get k current)) (normalize_size_value (get k original))).1 e in
    rw same (size_changes-none current original table h)

module _ (round_scaled : String → Option String) where
  -- what is sent for a key
  sent_for : String → Option String → Option String
  sent_for k none = none
  sent_for k (some v) =
      if is_sent round_scaled (k, v) then some (sent_value round_scaled k v) else none

  config_data-cons :
      (k v : String) (form : FormData)
      → config_data round_scaled (List.◌∷◌ (k, v) form) ≡ (
          if is_sent round_scaled (k, v)
          then List.◌∷◌ (k, sent_value round_scaled k v) (config_data round_scaled form)
          else config_data round_scaled form)
  unfolding config_data
  config_data-cons k v form = elim (Bool-cases (is_sent round_scaled (k, v))) [
    | inl sent ↦ rw sent refl
    | inr left ↦ rw left refl
  ]

  get-config_data :
      (k : String) (form : FormData)
      → distinct form ≡ true
      → get k (config_data round_scaled form) ≡ sent_for k (get k form)
  unfolding get sent_for
  get-config_data k List.[] h = unfold config_data in refl
  get-config_data k (List.◌∷◌ (j, v) form) h =
      let rest = get-config_data k form (ground (arith, h)) in
      elim (Bool-cases (str_eq j k)) [
        | inl same ↦
            let e : j ≡ k = (eq_iff j k).0 same in
            let gone : get k form ≡ none =
              missing_none (get k form)
                (subst (λ i. is_missing (get i form) ≡ true) e (ground (arith, h))) in
            let first : get k (config_data round_scaled (List.◌∷◌ (k, v) form))
                ≡ sent_for k (some v) =
              elim (Bool-cases (is_sent round_scaled (k, v))) [
                | inl sent ↦ rw (config_data-cons k v form, sent) (ground (arith, eq_iff k k))
                | inr left ↦ rw (config_data-cons k v form, left, rest, gone) refl
              ] in
            rw same (
              subst
                (λ i. get k (config_data round_scaled (List.◌∷◌ (i, v) form)) ≡ sent_for k (some v))
                (sym e) first)
        | inr other ↦ elim (Bool-cases (is_sent round_scaled (j, v))) [
          | inl sent ↦ rw (config_data-cons j v form, sent, other) rest
          | inr left ↦ rw (config_data-cons j v form, left, other) rest
        ]
      ]

  sent_for-size :
      (k : String) (o : Option String)
      → any (λ f. str_eq f k) size_fields ≡ true
      → starts_with_char b'_' k ≡ false
      → str_eq k "TEMPERATURE_WARNING" ≡ false
      → str_eq k "TEMPERATURE_CAUTION" ≡ false
      → sent_for k o ≡ with_unit o
  unfolding sent_for sent_value
  sent_for-size k none field plain warning caution = refl
  sent_for-size k (some v) field plain warning caution = elim (Bool-cases (is_empty v)) [
    | inl nothing ↦ rw (field, plain, nothing) refl
    | inr there ↦ elim (Bool-cases (all_digits v)) [
      | inl number ↦ rw (field, plain, there, number) refl
      | inr other ↦ rw (field, plain, there, other, warning, caution) refl
    ]
  ]

  normalize-with_unit :
      (o : Option String) → normalize_size_value (with_unit o) ≡ normalize_size_value o
  normalize-with_unit none = refl
  normalize-with_unit (some v) = elim (Bool-cases (is_empty v)) [
    | inl nothing ↦ unfold normalize_size_value in rw nothing refl
    | inr there ↦ elim (Bool-cases (all_digits v)) [
      | inl number ↦ rw (there, number) (normalize-append_unit v number there)
      | inr other ↦ rw (there, other) refl
    ]
  ]

  sent_for-plain : (o : Option String) → sent_for "WRAPS_SIZE" o ≡ as_it_is o
  unfolding sent_for sent_value starts_with_char
  sent_for-plain none = refl
  sent_for-plain (some v) = elim (Bool-cases (is_empty v)) [
    | inl nothing ↦ rw nothing refl
    | inr there ↦ rw there refl
  ]

  sent_as_size :
      (form : FormData) (k : String)
      → distinct form ≡ true
      → any (λ f. str_eq f k) size_fields ≡ true
      → starts_with_char b'_' k ≡ false
      → str_eq k "TEMPERATURE_WARNING" ≡ false
      → str_eq k "TEMPERATURE_CAUTION" ≡ false
      → get k (config_data round_scaled form) ≡ with_unit (get k form)
  sent_as_size form k h field plain warning caution =
      get-config_data k form h ∙ sent_for-size k (get k form) field plain warning caution

  -- For a form in which no key is there twice: what is sent for each of the four sizes with a unit is
  -- the value of the form, a plain number with "G" behind it, any other text as it is, and nothing
  -- if it is empty or missing; and if what is sent is compared with the form, none of the five sizes
  -- counts as changed.
  pub config_data-sizes :
      (form : FormData)
      → distinct form ≡ true
      → All (λ k. get k (config_data round_scaled form) ≡ with_unit (get k form)) size_fields
        × (size_changes (config_data round_scaled form) form destructive_size_keys ≡ List.[])
  unfolding sent_for starts_with_char
  config_data-sizes form h =
      let cam = sent_as_size form "CAM_SIZE" h refl refl refl refl in
      let music = sent_as_size form "MUSIC_SIZE" h refl refl refl refl in
      let lightshow = sent_as_size form "LIGHTSHOW_SIZE" h refl refl refl refl in
      let boombox = sent_as_size form "BOOMBOX_SIZE" h refl refl refl refl in
      let sized : (k : String)
          → get k (config_data round_scaled form) ≡ with_unit (get k form)
          → normalize_size_value (get k (config_data round_scaled form))
            ≡ normalize_size_value (get k form) =
        λ k e. ap normalize_size_value e ∙ normalize-with_unit (get k form) in
      (
        (cam, (music, (lightshow, (boombox, tt)))),
        size_changes-none (config_data round_scaled form) form destructive_size_keys (
          sized "CAM_SIZE" cam,
          (
            sized "MUSIC_SIZE" music,
            (
              sized "LIGHTSHOW_SIZE" lightshow,
              (
                sized "BOOMBOX_SIZE" boombox,
                (
                  ap normalize_size_value (
                        get-config_data "WRAPS_SIZE" form h
                        ∙ sent_for-plain (get "WRAPS_SIZE" form))
                      ∙ normalize-as_it_is (get "WRAPS_SIZE" form),
                  tt,
                ),
              ),
            ),
          ),
        ),
      )
