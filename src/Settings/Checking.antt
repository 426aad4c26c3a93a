-- ===== src/Settings/Checking.antt =====
-- web/src/pages/Settings.tsx: what a check for updates comes to.
use sentry_usb.Base.{
  ◌≡◌, ◌⊎◌, refl, Bool, true, false, ◌||◌, Option, none, some, String, arith, Bool-cases, inl, inr,
}
use sentry_usb.Base.Text.{truthy}
use sentry_usb.Settings.Update.{
  done, Offer, CheckData, Update, is_some, or_else, found_any, show_offers, up_to_date, show_check,
  start_check,
}

abbrev pub has_offer : Update → Bool
has_offer s = is_some s.stable_update || is_some s.prerelease_update || is_some s.revert_stable

abbrev pub is_text : Option String → Bool
is_text none = false
is_text (some e) = true

-- The check failed: an error is shown, and no offer.
pub record IsFailed (s t : Update) : Type 0 where
  pub error_is : is_text t.update_error ≡ true
  pub offers : has_offer t ≡ false
  pub status : t.update_status ≡ s.update_status

-- There is an offer.
pub record IsOffered (s t : Update) : Type 0 where
  pub error_is : t.update_error ≡ none
  pub offers : has_offer t ≡ true
  pub status : t.update_status ≡ s.update_status

-- There is nothing newer, and the page says so.
pub record IsCurrent (t : Update) : Type 0 where
  pub error_is : t.update_error ≡ none
  pub offers : has_offer t ≡ false
  pub status : t.update_status ≡ done

is_text-truthy : (e : Option String) → truthy e ≡ true → is_text e ≡ true
is_text-truthy none h = ground (arith, h)
is_text-truthy (some e) h = refl

abbrev Ended : Update → Update → Type 0
Ended s t = IsFailed s t ⊎ (IsOffered s t ⊎ IsCurrent t)

found_or_else :
    (a b c d : Option Offer)
    → is_some (or_else (or_else a b) none) || is_some (or_else c none) || is_some (or_else d none)
      ≡ is_some a || is_some b || is_some c || is_some d
found_or_else a b c d = ground arith

shown :
    (s : Update) (d : CheckData)
    → Ended s (record (show_check s.version d (start_check s)) { is_checking_update = false })
unfolding show_check show_offers up_to_date start_check
shown s d = elim (Bool-cases (truthy d.error_text)) [
  | inl failed ↦
      rw failed (
        inl
          (record { error_is = is_text-truthy d.error_text failed; offers = refl; status = refl }))
  | inr fine ↦ elim (Bool-cases (found_any d)) [
    | inl found ↦
        rw (fine, found)
          (inr (inl (record { error_is = refl; offers = ground (arith, found); status = refl })))
    | inr none_found ↦
        rw (fine, none_found)
          (inr
            (inr (record { error_is = refl; offers = ground (arith, none_found); status = refl })))
  ]
]
