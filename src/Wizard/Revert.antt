-- ===== src/Wizard/Revert.antt =====
-- web/src/components/setup/SetupWizard.tsx: `handleSkipDestructive` puts the destructive settings
-- back to their original values.
use sentry_usb.Base.{
  ◌≡◌, ◌≢◌, refl, ap, ◌∙◌, Bool, true, false, Option, some, List, [], ◌∷◌, String, str_eq, eq_iff,
  arith, if◌then◌else◌, any, All, Bool-cases, Option-cases, inl, inr, ◌⊎◌,
}
use sentry_usb.Base.Dict.{get, put, get-put}
use sentry_usb.Wizard.Validation.{FormData, or_default}
use sentry_usb.Wizard.Changes.{
  DestructiveChange, destructive_size_keys, normalize_size_value, size_changes, use_exfat,
  detect_destructive_changes,
}
use sentry_usb.Wizard.Apply.{Wizard, put_config, config_data, safe_data, handle_skip_destructive}

abbrev names : String → List DestructiveChange → Bool
names k cs = any (λ c. str_eq c.key k) cs

abbrev pub names_row : String → List (String × String) → Bool
names_row k table = any (λ r. str_eq r.0 k) table

module _ (original : FormData) where
  -- The size under a key is the original one.
  abbrev IsSame : String → FormData → Type 0
  IsSame k form = normalize_size_value (get k form) ≡ normalize_size_value (get k original)

  reverted :
      (k : String)
      → normalize_size_value (some (or_default (get k original) ""))
        ≡ normalize_size_value (get k original)
  unfolding normalize_size_value
  reverted k = elim (Option-cases (get k original)) [
    | inl missing ↦ rw missing
    | inr (v, found) ↦ rw found
  ]

  -- one round of the loop
  abbrev restore : DestructiveChange → FormData → FormData
  restore c safe =
      if str_eq c.key "USE_EXFAT"
      then put "USE_EXFAT" (or_default (get "USE_EXFAT" original) "true") safe
      else put c.key (or_default (get c.key original) "") safe

  get-restore_ne :
      (j : String) (c : DestructiveChange) (safe : FormData)
      → str_eq c.key j ≡ false
      → get j (restore c safe) ≡ get j safe
  get-restore_ne j c safe h = elim (Bool-cases (str_eq c.key "USE_EXFAT")) [
    | inl exfat ↦ rw exfat (
        get-put "USE_EXFAT" j _ safe
        ∙ ground (arith, eq_iff c.key "USE_EXFAT", eq_iff "USE_EXFAT" j, eq_iff c.key j))
    | inr size ↦ rw size (get-put c.key j _ safe ∙ ground arith)
  ]

  get-safe_data_ne :
      (j : String) (cs : List DestructiveChange) (safe : FormData)
      → names j cs ≡ false
      → get j (safe_data original safe cs) ≡ get j safe
  unfolding safe_data
  get-safe_data_ne j [] safe h = refl
  get-safe_data_ne j (c ∷ cs) safe h =
      get-safe_data_ne j cs (restore c safe) (ground arith) ∙ get-restore_ne j c safe (ground arith)

  restore-IsSame_self :
      (k : String) (c : DestructiveChange) (safe : FormData)
      → str_eq k "USE_EXFAT" ≡ false
      → str_eq c.key k ≡ true
      → IsSame k (restore c safe)
  restore-IsSame_self k c safe size same =
      let e : c.key ≡ k = (eq_iff c.key k).0 same in
      rw (e, size, get-put, (eq_iff k k).1 refl) (reverted k)

  safe_data-IsSame :
      (k : String) (cs : List DestructiveChange) (safe : FormData)
      → str_eq k "USE_EXFAT" ≡ false
      → (IsSame k safe) ⊎ (names k cs ≡ true)
      → IsSame k (safe_data original safe cs)
  unfolding safe_data
  safe_data-IsSame k [] safe size (inl s) = s
  safe_data-IsSame k [] safe size (inr n) = absurd (ground arith)
  safe_data-IsSame k (c ∷ cs) safe size h = elim (Bool-cases (str_eq c.key k)) [
    | inl same ↦
        safe_data-IsSame k cs (restore c safe) size (inl (restore-IsSame_self k c safe size same))
    | inr other ↦ safe_data-IsSame k cs (restore c safe) size (elim h [
      | inl s ↦ inl (ap normalize_size_value (get-restore_ne k c safe other) ∙ s)
      | inr n ↦ inr (ground arith)
    ])
  ]

All-map {ℓ κ μ} :
    {A : Type ℓ} (P : A → Type κ) (Q : A → Type μ)
    → ((a : A) → P a → Q a)
    → (l : List A) → All P l
    → All Q l
All-map P Q f [] h = tt
All-map P Q f (a ∷ l) (h, hs) = (f a h, All-map P Q f l hs)

module _ (current original : FormData) where
  -- A row of the table is unchanged, or is among the changes.
  abbrev Found : List DestructiveChange → String × String → Type 0
  Found cs r = (IsSame original r.0 current) ⊎ (names r.0 cs ≡ true)

  Found-head :
      (k l : String) (table : List (String × String))
      → Found (size_changes current original ((k, l) ∷ table)) (k, l)
  unfolding size_changes
  Found-head k l table =
      let new_val = normalize_size_value (get k current) in
      let old_val = normalize_size_value (get k original) in
      elim (Bool-cases (str_eq new_val old_val)) [
        | inl same ↦ inl ((eq_iff new_val old_val).0 same)
        | inr differ ↦ inr (ground (arith, eq_iff k k))
      ]

  Found-cons :
      (k l : String) (table : List (String × String)) (r : String × String)
      → Found (size_changes current original table) r
      → Found (size_changes current original ((k, l) ∷ table)) r
  unfolding size_changes
  Found-cons k l table r (inl s) = inl s
  Found-cons k l table r (inr n) = inr (ground arith)

  size_changes_complete :
      (table : List (String × String)) → All (Found (size_changes current original table)) table
  size_changes_complete [] = tt
  size_changes_complete ((k, l) ∷ table) = (
    Found-head k l table,
    All-map (Found (size_changes current original table)) _ (Found-cons k l table) table
        (size_changes_complete table),
  )

  size_changes-none :
      (table : List (String × String))
      → All (λ r. IsSame original r.0 current) table
      → size_changes current original table ≡ []
  unfolding size_changes
  size_changes-none [] h = refl
  size_changes-none ((k, l) ∷ table) (h, hs) = ground (
    arith,
    eq_iff (normalize_size_value (get k current)) (normalize_size_value (get k original)),
    size_changes-none table hs,
  )

  -- Only rows of the table are listed.
  names-size_changes :
      (j : String) (table : List (String × String))
      → names_row j table ≡ false
      → names j (size_changes current original table) ≡ false
  unfolding size_changes
  names-size_changes j [] h = refl
  names-size_changes j ((k, l) ∷ table) h = ground (arith, names-size_changes j table)

abbrev AllSizes : List (String × String) → Type 0
AllSizes table = All (λ r. str_eq r.0 "USE_EXFAT" ≡ false) table

-- With every found change put back, every row is the same as in the original.
All-IsSame :
    (current original : FormData) (cs : List DestructiveChange) (table : List (String × String))
    → AllSizes table
    → All (Found current original cs) table
    → All (λ r. IsSame original r.0 (safe_data original current cs)) table
All-IsSame current original cs [] a h = tt
All-IsSame current original cs ((k, l) ∷ table) (a, others) (h, hs) =
    (safe_data-IsSame original k cs current a h, All-IsSame current original cs table others hs)

detect_same_system :
    (original f : FormData)
    → use_exfat f ≡ use_exfat original
    → detect_destructive_changes f (some original) ≡ size_changes f original destructive_size_keys
unfolding detect_destructive_changes
detect_same_system original f h = ground (arith, eq_iff (use_exfat f) (use_exfat original))

module _ (form original : FormData) (e : use_exfat form ≡ use_exfat original) where
  abbrev changes : List DestructiveChange
  changes = size_changes form original destructive_size_keys

  safe_data-kept :
      (j : String)
      → names_row j destructive_size_keys ≡ false
      → get j (safe_data original form changes) ≡ get j form
  safe_data-kept j h =
      get-safe_data_ne original j changes form
        (names-size_changes form original j destructive_size_keys h)

  safe_data-harmless :
      detect_destructive_changes (safe_data original form changes) (some original) ≡ []
  safe_data-harmless =
      detect_same_system original (safe_data original form changes)
        (rw (safe_data-kept "USE_EXFAT" refl) e)
      ∙ size_changes-none (safe_data original form changes) original destructive_size_keys (
          All-IsSame form original changes destructive_size_keys
            (refl, (refl, (refl, (refl, (refl, tt)))))
            (size_changes_complete form original destructive_size_keys))

-- The user skips the destructive changes listed by the warning, and the file system was not among
-- them: then what is sent is made from a form that has no destructive change against the
-- original, and that differs from the user's form in size settings alone.
pub handle_skip_destructive-safe :
    (round_scaled : String → Option String) (w : Wizard) (original : FormData)
    → w.original ≡ some original
    → use_exfat w.form ≡ use_exfat original
    → w.warning ≡ some (detect_destructive_changes w.form (some original))
    → let safe = safe_data original w.form (detect_destructive_changes w.form (some original)) in
      ((handle_skip_destructive round_scaled w).sent
        ≡ put_config (config_data round_scaled safe) ∷ w.sent)
      × (detect_destructive_changes safe (some original) ≡ [])
      × ((j : String) → names_row j destructive_size_keys ≡ false → get j safe ≡ get j w.form)
unfolding handle_skip_destructive
handle_skip_destructive-safe rs w original o e h =
    let same = detect_same_system original w.form e in
    (
      rw (h, o),
      rw same (safe_data-harmless w.form original e),
      rw same (safe_data-kept w.form original e),
    )

get-safe_data_exfat :
    (j : String) (form original : FormData)
    → use_exfat form ≢ use_exfat original
    → str_eq "USE_EXFAT" j ≡ false
    → get j (safe_data original form (detect_destructive_changes form (some original))) ≡ get j form
unfolding detect_destructive_changes
get-safe_data_exfat j form original differ other =
    get-safe_data_ne original j (detect_destructive_changes form (some original)) form
      (ground (arith, eq_iff (use_exfat form) (use_exfat original)))

size_changes-get :
    (f g original : FormData) (table : List (String × String))
    → All (λ r. get r.0 f ≡ get r.0 g) table
    → size_changes f original table ≡ size_changes g original table
unfolding size_changes
size_changes-get f g original [] h = refl
size_changes-get f g original ((k, l) ∷ table) (h, hs) =
    rw h (rw (size_changes-get f g original table hs) refl)

use_exfat-safe_data :
    (form original : FormData)
    → use_exfat form ≢ use_exfat original
    → use_exfat (safe_data original form (detect_destructive_changes form (some original)))
      ≡ use_exfat original
unfolding detect_destructive_changes safe_data
use_exfat-safe_data form original differ =
    elim (Bool-cases (str_eq (use_exfat form) (use_exfat original))) [
      | inl same ↦ absurd (differ ((eq_iff _ _).0 same))
      | inr other ↦
          rw other (ap (λ v. or_default v "true") (get-put "USE_EXFAT" "USE_EXFAT" _ form))
    ]

sizes-safe_data :
    (form original : FormData)
    → use_exfat form ≢ use_exfat original
    → All
        (λ r.
          get r.0 (safe_data original form (detect_destructive_changes form (some original)))
          ≡ get r.0 form)
        destructive_size_keys
sizes-safe_data form original differ =
    let at = λ (k : String) (h : str_eq "USE_EXFAT" k ≡ false).
      get-safe_data_exfat k form original differ h in
    (
      at "CAM_SIZE" refl,
      (
        at "MUSIC_SIZE" refl,
        (at "LIGHTSHOW_SIZE" refl, (at "BOOMBOX_SIZE" refl, (at "WRAPS_SIZE" refl, tt))),
      ),
    )

-- The user skips the destructive changes after changing the file system and some size: the file
-- system alone is put back, as its change hides the others in the warning, so the form that is
-- sent still holds every destructive change of a size.
handle_skip_destructive-exfat :
    (round_scaled : String → Option String) (w : Wizard) (original : FormData)
    → w.original ≡ some original
    → use_exfat w.form ≢ use_exfat original
    → w.warning ≡ some (detect_destructive_changes w.form (some original))
    → let safe = safe_data original w.form (detect_destructive_changes w.form (some original)) in
      ((handle_skip_destructive round_scaled w).sent
        ≡ put_config (config_data round_scaled safe) ∷ w.sent)
      × (detect_destructive_changes safe (some original)
          ≡ size_changes w.form original destructive_size_keys)
unfolding handle_skip_destructive
handle_skip_destructive-exfat rs w original o e h =
    let safe = safe_data original w.form (detect_destructive_changes w.form (some original)) in
    (
      rw (h, o),
      detect_same_system original safe (use_exfat-safe_data w.form original e)
          ∙ size_changes-get safe w.form original destructive_size_keys
              (sizes-safe_data w.form original e),
    )
