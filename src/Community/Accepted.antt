-- ===== src/Community/Accepted.antt =====
-- web/src/pages/LockChime.tsx: what becomes of a sound that the check for an upload lets through.
use sentry_usb.Base.{
  ℕ, List, ◌*◌, ◌≡◌, refl, ◌∙◌, Bool, true, false, Option, none, some, String, str_eq, ltb, length,
  arith, Bool-cases, inl, inr, sym,
}
use sentry_usb.Base.Text.{trim, is_empty, has_prefix}
use sentry_usb.Base.Exec.{Answer, Done}
use sentry_usb.LockChime.Selection.{Browser, AudioBuffer, AudioFile, convert_to_wav}
use sentry_usb.LockChime.Sizes.{length-convert_to_wav}
use sentry_usb.Community.Chimes.{
  check_decoded, validate_file, upload_converted, upload_reply, handle_upload,
}

-- The browser gives a rate above 0 for every sound that it decodes.
module _ {Sample : Type 0} where
  abbrev pub has_rate : Option (AudioBuffer Sample) → Bool
  has_rate none = true
  has_rate (some audio) = ltb 0 audio.sample_rate

no_text : (text : String) {B : Type 0} → some text ≡ none → B
no_text text e = absurd (ground (arith, e))

module _ {Sample : Type 0} (browser : Browser Sample) where
  fits :
      (decoded : Option (AudioBuffer Sample)) (bytes : List ℕ) (r : Answer Done)
      → has_rate decoded ≡ true
      → check_decoded browser decoded ≡ none
      → convert_to_wav browser decoded ≡ some bytes
      → upload_converted browser (some bytes) r ≡ upload_reply browser r
  fits none bytes r h k made = no_text "Unsupported audio format" k
  fits (some audio) bytes r h k made =
      elim (Bool-cases (ltb (5 * audio.sample_rate) audio.frames)) [
        | inl long ↦ no_text "Sound is too long" (sym (rw long refl) ∙ k)
        | inr short ↦
            let size =
              length-convert_to_wav browser audio bytes (ground (arith, h)) (ground (arith, short))
                made in
            let small : ltb (1 * 1024 * 1024) (length bytes) ≡ false = ground (arith, size) in
            rw small refl
      ]

  -- A file that the check lets through, whose name is neither blank nor taken and whose conversion
  -- does not throw and decodes what the check decoded, is not refused for its format or its size when
  -- it is uploaded: what becomes of it is what the server answers.
  validate_file-handle_upload :
      (to_lower_case : String → String) (name : String) (file : AudioFile Sample) (bytes : List ℕ)
      (r : Answer Done)
      → has_rate file.decoded ≡ true
      → validate_file browser file ≡ none
      → convert_to_wav browser file.decoded ≡ some bytes
      → convert_to_wav browser file.decoded_again ≡ some bytes
      → is_empty (trim name) ≡ false
      → str_eq (to_lower_case (trim name)) "lockchime" ≡ false
      → handle_upload browser to_lower_case name file r ≡ upload_reply browser r
  unfolding validate_file handle_upload
  validate_file-handle_upload to_lower_case name file bytes r h v made again n k =
      elim (Bool-cases (has_prefix "audio/" file.type)) [
        | inl audio ↦ rw (n, k, again) (fits file.decoded bytes r h (sym (rw audio refl) ∙ v) made)
        | inr other ↦ no_text "Only audio files are supported" (sym (rw other refl) ∙ v)
      ]
