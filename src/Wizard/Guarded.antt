-- ===== src/Wizard/Guarded.antt =====
-- web/src/components/setup/SetupWizard.tsx: `handleApply` sends a form only when it is valid and
-- destroys nothing.
use native.Mathlib.Decide.{ℕ_discrete, dec_lt}
use sentry_usb.Base.{
  ℕ, zero, suc, ◌+◌, ◌<◌, ◌≤◌, ◌≡◌, ◌≢◌, ◌⊎◌, refl, Option, none, some, List, [], ◌∷◌, String,
  arith, Option-cases, inl, inr,
}
use sentry_usb.Wizard.Validation.{FormData, get_step_error}
use sentry_usb.Wizard.Changes.{detect_destructive_changes}
use sentry_usb.Wizard.Apply.{
  Wizard, put_config, config_data, first_invalid_from, first_invalid, handle_apply,
}

abbrev IsClean : FormData → ℕ → Type 0
IsClean form i = get_step_error i form ≡ none

IsClean-above : (form : FormData) (i : ℕ) → 8 ≤ i → IsClean form i
unfolding get_step_error
IsClean-above form i h = ground arith

-- What the search from a step on finds: nothing, and those steps have no error; or the first.
record IsFirst (form : FormData) (from i : ℕ) : Type 0 where
  after : from ≤ i
  invalid : get_step_error i form ≢ none
  before : (j : ℕ) → from ≤ j → j < i → IsClean form j

first_invalid_from-none :
    (form : FormData) (from left : ℕ)
    → first_invalid_from form from left ≡ none
    → (j : ℕ) → from ≤ j
    → j < from + left
    → IsClean form j
unfolding first_invalid_from
first_invalid_from-none form from zero e j h k = absurd (omega arith)
first_invalid_from-none form from (suc left) e j h k = elim (ℕ_discrete from j) [
  | yes same ↦ rw (← same) (ground arith)
  | no other ↦
      first_invalid_from-none form (suc from) left (ground arith) j (omega arith) (omega arith)
]

first_invalid_from-some :
    (form : FormData) (from left i : ℕ)
    → first_invalid_from form from left ≡ some i
    → IsFirst form from i
unfolding first_invalid_from
first_invalid_from-some form from zero i e = cc
first_invalid_from-some form from (suc left) i e = elim (Option-cases (get_step_error from form)) [
  | inr (m, bad) ↦
      let same : from ≡ i = ground arith in
      record {
        after = omega arith;
        invalid = rw (← same) (λ c. ground arith);
        before = λ j h k. absurd (omega arith);
      }
  | inl fine ↦
      let rest = first_invalid_from-some form (suc from) left i (ground arith) in
      record {
        after = omega (arith, rest.after);
        invalid = rest.invalid;
        before = λ j h k. elim (ℕ_discrete from j) [
          | yes same ↦ rw (← same) fine
          | no other ↦ rest.before j (omega arith) k
        ];
      }
]

IsClean-form : (form : FormData) → first_invalid form ≡ none → (j : ℕ) → IsClean form j
unfolding first_invalid
IsClean-form form e j = elim (dec_lt j 10) [
  | yes low ↦ first_invalid_from-none form 0 10 e j (omega arith) (omega arith)
  | no high ↦ IsClean-above form j (omega arith)
]

invalid_form : (form : FormData) (i : ℕ) → first_invalid form ≡ some i → IsFirst form 0 i
unfolding first_invalid
invalid_form form i e = first_invalid_from-some form 0 10 i e

module _ (round_scaled : String → Option String) (w : Wizard) where
  -- What the apply button does in each case.
  handle_apply-sends :
      first_invalid w.form ≡ none
      → detect_destructive_changes w.form w.original ≡ []
      → (handle_apply round_scaled w).sent ≡ put_config (config_data round_scaled w.form) ∷ w.sent
  unfolding handle_apply
  handle_apply-sends e f = ground arith

  handle_apply-warns :
      first_invalid w.form ≡ none
      → detect_destructive_changes w.form w.original ≢ []
      → ((handle_apply round_scaled w).sent ≡ w.sent)
        × ((handle_apply round_scaled w).warning
            ≡ some (detect_destructive_changes w.form w.original))
  unfolding handle_apply
  handle_apply-warns e f = ground arith

  handle_apply-moves :
      (i : ℕ)
      → first_invalid w.form ≡ some i
      → handle_apply round_scaled w
        ≡ record w { current_step = i; save_error = get_step_error i w.form }
  unfolding handle_apply
  handle_apply-moves i e = ground arith

List-cases {ℓ} : {A : Type ℓ} (l : List A) → (l ≡ []) ⊎ (l ≢ [])
List-cases [] = inl refl
List-cases (x ∷ l) = inr (λ e. cc)

-- What the apply button does, in the three cases that there are. Some step has an error: the
-- wizard moves to the first such step and shows its error, and nothing else changes. No step has
-- an error and some change is destructive: the warning lists the changes, and nothing is sent.
-- No step has an error and no change is destructive: the configuration made from the form is
-- sent.
pub handle_apply-cases :
    (round_scaled : String → Option String) (w : Wizard)
    → ((i : ℕ) × (get_step_error i w.form ≢ none)
        × ((j : ℕ) → j < i → get_step_error j w.form ≡ none)
        × (handle_apply round_scaled w
            ≡ record w { current_step = i; save_error = get_step_error i w.form }))
      ⊎ (((j : ℕ) → get_step_error j w.form ≡ none)
          × (detect_destructive_changes w.form w.original ≢ [])
          × ((handle_apply round_scaled w).sent ≡ w.sent)
          × ((handle_apply round_scaled w).warning
              ≡ some (detect_destructive_changes w.form w.original)))
      ⊎ (((j : ℕ) → get_step_error j w.form ≡ none)
          × (detect_destructive_changes w.form w.original ≡ [])
          × ((handle_apply round_scaled w).sent
              ≡ put_config (config_data round_scaled w.form) ∷ w.sent))
handle_apply-cases rs w = elim (Option-cases (first_invalid w.form)) [
  | inr (i, found) ↦
      let first = invalid_form w.form i found in
      inl (i, first.invalid, λ j h. first.before j (omega arith) h, handle_apply-moves rs w i found)
  | inl fine ↦ elim (List-cases (detect_destructive_changes w.form w.original)) [
    | inl safe ↦ inr (inr (IsClean-form w.form fine, safe, handle_apply-sends rs w fine safe))
    | inr risky ↦
        let (kept, warned) = handle_apply-warns rs w fine risky in
        inr (inl (IsClean-form w.form fine, risky, kept, warned))
  ]
]
