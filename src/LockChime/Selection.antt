-- ===== src/LockChime/Selection.antt =====
-- web/src/pages/LockChime.tsx: a file that is chosen for upload: `handleFileSelected` with
-- `mixToMono`, `resampleMono` and `convertToWav`. The browser decodes and renders the audio and
-- calculates with the samples.
use sentry_usb.Base.{
  ℕ, zero, suc, ◌+◌, ◌-◌, ◌*◌, ◌/◌, ◌≡◌, Option, none, some, List, [], ◌∷◌, map, String,
  if◌then◌else◌, ltb, ◌==◌, length,
}
use mathlib.Core.Option
use sentry_usb.Base.Text.{has_prefix}
use sentry_usb.Wav.{encode_mono_wav}
use sentry_usb.LockChime.Names.{strip_extension}
use sentry_usb.LockChime.Library.{Library, error, show_toast}

-- The operations of the browser on samples: `quantize` is the 16-bit number that is written for one,
-- and `render` plays a buffer of a rate into a context of so many frames, which gives that many, or
-- throws (`none`).
pub record Browser (Sample : Type 0) : Type 0 where
  pub silence : Sample
  pub add : Sample → Sample → Sample
  pub divide : Sample → ℕ → Sample
  pub quantize : Sample → ℕ
  pub render : List Sample → ℕ → ℕ → Option (List Sample)
  pub length_render :
      (samples rendered : List Sample) (rate frames : ℕ)
      → render samples rate frames ≡ some rendered
      → length rendered ≡ frames

-- `AudioBuffer`: every channel has as many samples as the buffer.
pub record AudioBuffer (Sample : Type 0) : Type 0 where
  pub frames : ℕ
  pub sample_rate : ℕ
  pub channels : List (List Sample)

-- What `decodeAudioData` gives for the file, at the check of the duration and at the conversion;
-- `none` if it throws.
pub record AudioFile (Sample : Type 0) : Type 0 where
  pub name : String
  pub type : String
  pub decoded : Option (AudioBuffer Sample)
  pub decoded_again : Option (AudioBuffer Sample)

abbrev pub target_sample_rate : ℕ
target_sample_rate = 44100

abbrev pub max_duration_seconds : ℕ
max_duration_seconds = 5

abbrev pub max_file_bytes : ℕ
max_file_bytes = 1 * 1024 * 1024

module _ {Sample : Type 0} (browser : Browser Sample) where
  abbrev pub repeat_silence : ℕ → List Sample
  repeat_silence zero = []
  repeat_silence (suc n) = browser.silence ∷ repeat_silence n

  -- one channel is added to what there is
  unfoldable pub add_channel : List Sample → List Sample → List Sample
  add_channel [] channel = []
  add_channel (m ∷ mono) [] = m ∷ mono
  add_channel (m ∷ mono) (c ∷ channel) = browser.add m c ∷ add_channel mono channel

  abbrev pub add_channels : List Sample → List (List Sample) → List Sample
  add_channels mono [] = mono
  add_channels mono (c ∷ channels) = add_channels (add_channel mono c) channels

  unfoldable pub mix_to_mono : AudioBuffer Sample → List Sample
  unfolding add_channel
  mix_to_mono audio =
      let mono = add_channels (repeat_silence audio.frames) audio.channels in
      let count = length audio.channels in
      if ltb 1 count then map (λ s. browser.divide s count) mono else mono

  -- `Math.ceil(samples.length / srcRate * targetRate)`, as an exact quotient
  unfoldable pub frame_count : ℕ → ℕ → ℕ → ℕ
  frame_count count src_rate target_rate = (count * target_rate + (src_rate - 1)) / src_rate

  unfoldable pub resample_mono : List Sample → ℕ → ℕ → Option (List Sample)
  unfolding frame_count
  resample_mono samples src_rate target_rate =
      if src_rate == target_rate
      then some samples
      else browser.render samples src_rate (frame_count (length samples) src_rate target_rate)

  -- the bytes of the file for the samples
  unfoldable pub wav_bytes : List Sample → List ℕ
  unfolding encode_mono_wav
  wav_bytes samples = encode_mono_wav (map browser.quantize samples) target_sample_rate

  -- `convertToWav`: the bytes of the file, or `none` if it throws. It decodes the file again: `audio`
  -- is what that gives.
  unfoldable pub convert_to_wav : Option (AudioBuffer Sample) → Option (List ℕ)
  unfolding mix_to_mono resample_mono wav_bytes
  convert_to_wav none = none
  convert_to_wav (some audio) =
      Option.map wav_bytes (resample_mono (mix_to_mono audio) audio.sample_rate target_sample_rate)

  -- the last steps of `handleFileSelected`, with the converted file
  unfoldable pub take_wav : AudioFile Sample → Option (List ℕ) → Library → Library
  unfolding strip_extension show_toast
  take_wav file none s = show_toast "Failed to convert audio to WAV" error s
  take_wav file (some bytes) s =
      let taken = record s {
        pending_file = some (record { file_name = strip_extension file.name; size = length bytes });
        pending_name = strip_extension file.name;
      } in
      if ltb max_file_bytes (length bytes)
      then show_toast "Converted WAV is too large" error s
      else taken

  unfoldable pub check_duration : AudioFile Sample → Option (AudioBuffer Sample) → Library → Library
  unfolding convert_to_wav take_wav show_toast
  check_duration file none s = show_toast "Unsupported audio format" error s
  check_duration file (some audio) s =
      if ltb (max_duration_seconds * audio.sample_rate) audio.frames
      then show_toast "Sound is too long" error s
      else take_wav file (convert_to_wav file.decoded_again) s

  -- `handleFileSelected`. The numbers in its messages are left out.
  unfoldable pub handle_file_selected : AudioFile Sample → Library → Library
  unfolding check_duration has_prefix show_toast
  handle_file_selected file s =
      if has_prefix "audio/" file.type
      then check_duration file file.decoded s
      else show_toast "Only audio files are supported" error s
