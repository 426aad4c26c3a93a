-- ===== src/ConfFile/Masking.antt =====
-- web/src/components/setup/steps/WelcomeStep.tsx, `maskValue`: how a value is shown. A value is its
-- UTF-16 code units; 8226 is the bullet.
use sentry_usb.Base.{
  ℕ, zero, suc, ◌-◌, ◌≡◌, refl, sym, ap, ◌∙◌, true, ◌&&◌, Option, none, some, List, [], ◌∷◌, ◌++◌,
  String, str_eq, arith, ltb, if◌then◌else◌, any, length, take, min,
}

abbrev pub sensitive_keys : List String
sensitive_keys =
    "WIFIPASS" ∷ "AP_PASS" ∷ "sharepassword" ∷ "WEB_PASSWORD" ∷ "PUSHOVER_APP_KEY"
    ∷ "PUSHOVER_USER_KEY" ∷ "TESLAFI_TOKEN" ∷ "TESSIE_ACCESS_TOKEN" ∷ "TELEGRAM_BOT_TOKEN"
    ∷ "GOTIFY_TOKEN" ∷ "MATRIX_TOKEN" ∷ "IFTTT_KEY" ∷ "AWS_SNS_TOPIC_ARN" ∷ "SSH_PUBLIC_KEY"
    ∷ "SLACK_WEBHOOK_URL" ∷ "DISCORD_WEBHOOK_URL" ∷ "NOTIFICATION_WEBHOOK_URL" ∷ []

abbrev pub bullets : ℕ → List ℕ
bullets zero = []
bullets (suc n) = 8226 ∷ bullets n

-- `none` is the `RangeError` of `repeat` at a count below 0.
unfoldable pub mask_value : String → List ℕ → Option (List ℕ)
mask_value key value =
    if any (λ k. str_eq k key) sensitive_keys && ltb 0 (length value)
    then if ltb (length value) 2
      then none
      else some (take 2 value ++ bullets (min (length value - 2) 12))
    else some value

abbrev masked : ℕ → List ℕ → Option (List ℕ)
masked n start =
    if ltb 0 n then if ltb n 2 then none else some (start ++ bullets (min (n - 2) 12)) else some []

mask_value-masked :
    (key : String) (v : List ℕ)
    → any (λ k. str_eq k key) sensitive_keys ≡ true
    → mask_value key v ≡ masked (length v) (take 2 v)
unfolding mask_value
mask_value-masked key [] s = rw s refl
mask_value-masked key (c ∷ v) s =
    let positive : ltb 0 (suc (length v)) ≡ true = ground arith in rw (s, positive) refl

masked_alike : (n m : ℕ) (start : List ℕ) → min n 14 ≡ min m 14 → masked n start ≡ masked m start
masked_alike n m start e =
    let rest : min (n - 2) 12 ≡ min (m - 2) 12 = omega (arith, e) in
    let empty : ltb 0 n ≡ ltb 0 m = ground (arith, e) in
    let short : ltb n 2 ≡ ltb m 2 = ground (arith, e) in rw (rest, empty, short) refl

-- How a value of a sensitive key is shown depends on its first two units alone, and on its length
-- as far as 14: two values that agree in these are shown alike. A value of one unit is not shown:
-- the call throws.
mask_value-hides :
    (key : String) (v w : List ℕ)
    → any (λ k. str_eq k key) sensitive_keys ≡ true
    → take 2 v ≡ take 2 w
    → min (length v) 14 ≡ min (length w) 14
    → (mask_value key v ≡ mask_value key w) × ((c : ℕ) → mask_value key (c ∷ []) ≡ none)
mask_value-hides key v w s start size = (
  mask_value-masked key v s
      ∙ masked_alike (length v) (length w) (take 2 v) size
      ∙ ap (masked (length w)) start
      ∙ sym (mask_value-masked key w s),
  λ c. mask_value-masked key (c ∷ []) s,
)
