-- ===== src/LockChime/Sizes.antt =====
-- web/src/pages/LockChime.tsx: how large the file is that a sound is converted to.
use sentry_usb.LockChime.Names.{strip_extension}
use native.Mathlib.Nat.{div-lt_iff_lt-mul}
use sentry_usb.Base.{
  ℕ, zero, suc, ◌+◌, ◌-◌, ◌*◌, ◌≤◌, ◌<◌, ◌≡◌, refl, sym, ap, ◌∙◌, true, false, Option, some, List,
  [], ◌∷◌, map, ltb, ◌==◌, length, length-map, arith, Bool-cases, Option-cases, inl, inr, none, ◌⊎◌,
}
use sentry_usb.Base.Text.{has_prefix}
use sentry_usb.Wav.Layout.{length-encode_mono_wav}
use sentry_usb.LockChime.Library.{Library, show_toast, error}
use sentry_usb.LockChime.Selection.{
  Browser, AudioBuffer, AudioFile, repeat_silence, add_channel, add_channels, mix_to_mono,
  frame_count, resample_mono, wav_bytes, convert_to_wav, take_wav, check_duration,
  handle_file_selected,
}

module _ {Sample : Type 0} (browser : Browser Sample) where
  length-repeat_silence : (n : ℕ) → length (repeat_silence browser n) ≡ n
  length-repeat_silence zero = refl
  length-repeat_silence (suc n) = ap suc (length-repeat_silence n)

  length-add_channel :
      (mono channel : List Sample) → length (add_channel browser mono channel) ≡ length mono
  unfolding add_channel
  length-add_channel [] channel = refl
  length-add_channel (m ∷ mono) [] = refl
  length-add_channel (m ∷ mono) (c ∷ channel) = ap suc (length-add_channel mono channel)

  length-add_channels :
      (mono : List Sample) (channels : List (List Sample))
      → length (add_channels browser mono channels) ≡ length mono
  length-add_channels mono [] = refl
  length-add_channels mono (c ∷ channels) =
      length-add_channels (add_channel browser mono c) channels ∙ length-add_channel mono c

  length-mix_to_mono :
      (audio : AudioBuffer Sample) → length (mix_to_mono browser audio) ≡ audio.frames
  unfolding mix_to_mono
  length-mix_to_mono audio =
      let count = length audio.channels in
      let mono = add_channels browser (repeat_silence browser audio.frames) audio.channels in
      let mixed : length mono ≡ audio.frames =
        length-add_channels (repeat_silence browser audio.frames) audio.channels
        ∙ length-repeat_silence audio.frames in
      elim (Bool-cases (ltb 1 count)) [
        | inl several ↦ rw several (length-map (λ s. browser.divide s count) mono ∙ mixed)
        | inr one ↦ rw one mixed
      ]

  frame_count-bound :
      (count rate : ℕ) → 0 < rate → count ≤ 5 * rate → frame_count browser count rate 44100 ≤ 220500
  unfolding frame_count
  frame_count-bound count rate r h =
      let n = count * 44100 + (rate - 1) in
      let below : n < 220501 * rate = omega (arith, r, h) in
      omega (arith, (div-lt_iff_lt-mul r).1 below)

  length-resample_mono :
      (samples resampled : List Sample) (rate : ℕ)
      → 0 < rate
      → length samples ≤ 5 * rate
      → resample_mono browser samples rate 44100 ≡ some resampled
      → length resampled ≤ 220500
  unfolding resample_mono
  length-resample_mono samples resampled rate r h = elim (Bool-cases (rate == 44100)) [
    | inl same ↦ rw same (λ e. ground (arith, same, h, e))
    | inr other ↦ rw other (λ e.
        let frames = frame_count browser (length samples) rate 44100 in
        omega (
          arith,
          browser.length_render samples resampled rate frames e,
          frame_count-bound (length samples) rate r h,
        ))
  ]

  length-wav_bytes :
      (samples : List Sample)
      → length samples ≤ 220500
      → length (wav_bytes browser samples) ≤ 441044
  unfolding wav_bytes
  length-wav_bytes samples h = omega (
    arith,
    length-encode_mono_wav (map browser.quantize samples) 44100,
    length-map browser.quantize samples,
    h,
  )

  pub length-convert_to_wav :
      (audio : AudioBuffer Sample) (bytes : List ℕ)
      → 0 < audio.sample_rate
      → audio.frames ≤ 5 * audio.sample_rate
      → convert_to_wav browser (some audio) ≡ some bytes
      → length bytes ≤ 441044
  unfolding convert_to_wav
  length-convert_to_wav audio bytes r h e =
      let mono = mix_to_mono browser audio in
      let short : length mono ≤ 5 * audio.sample_rate =
        omega (arith, length-mix_to_mono audio, h) in
      elim (Option-cases (resample_mono browser mono audio.sample_rate 44100)) [
        | inl failed ↦ ground (arith, failed, e)
        | inr (samples, made) ↦
            let size =
              length-wav_bytes samples
                (length-resample_mono mono samples audio.sample_rate r short made) in
            ground (arith, made, e, size)
      ]

  length-converted :
      (decoded : Option (AudioBuffer Sample)) (audio : AudioBuffer Sample) (bytes : List ℕ)
      → decoded ≡ some audio ⊎ decoded ≡ none
      → 0 < audio.sample_rate
      → audio.frames ≤ 5 * audio.sample_rate
      → convert_to_wav browser decoded ≡ some bytes
      → length bytes ≤ 441044
  unfolding convert_to_wav
  length-converted none audio bytes again r h e = ground (arith, e)
  length-converted (some other) audio bytes (inl same) r h e =
      length-convert_to_wav audio bytes r h (sym (ap (convert_to_wav browser) same) ∙ e)
  length-converted (some other) audio bytes (inr gone) r h e = ground (arith, gone)

  -- What a file of the type of audio comes to that the browser can decode and that is at most five
  -- seconds long. If the conversion throws, its error message is shown and nothing else changes.
  -- If not, the file waits for its name and no message is shown; it is never too large, since what
  -- it is converted to has at most 441044 bytes, less than half of what is allowed.
  pub handle_file_selected-taken :
      (file : AudioFile Sample) (audio : AudioBuffer Sample) (s : Library)
      → has_prefix "audio/" file.type ≡ true
      → file.decoded ≡ some audio
      → file.decoded_again ≡ some audio ⊎ file.decoded_again ≡ none
      → 0 < audio.sample_rate
      → audio.frames ≤ 5 * audio.sample_rate
      → ((convert_to_wav browser file.decoded_again ≡ none)
          × (handle_file_selected browser file s
              ≡ show_toast "Failed to convert audio to WAV" error s))
        ⊎ ((bytes : List ℕ) × (convert_to_wav browser file.decoded_again ≡ some bytes)
            × (length bytes ≤ 441044)
            × (handle_file_selected browser file s ≡ record s {
              pending_file =
                  some (record { file_name = strip_extension file.name; size = length bytes });
              pending_name = strip_extension file.name;
            }))
  unfolding handle_file_selected check_duration take_wav
  handle_file_selected-taken file audio s t d again r h =
      let short : ltb (5 * audio.sample_rate) audio.frames ≡ false = ground (arith, h) in
      elim (Option-cases (convert_to_wav browser file.decoded_again)) [
        | inl thrown ↦ inl (thrown, rw (t, d, short, thrown) refl)
        | inr (bytes, made) ↦
            let size : length bytes ≤ 441044 =
              length-converted file.decoded_again audio bytes again r h made in
            let fits : ltb (1 * 1024 * 1024) (length bytes) ≡ false = ground (arith, size) in
            inr (bytes, made, size, rw (t, d, short, made, fits) refl)
      ]
