-- ===== src/LockChime/Examples.antt =====
-- web/src/pages/LockChime.tsx: two sounds, a handler, and a file that is chosen.
use sentry_usb.Base.{
  ℕ, ◌+◌, ◌/◌, ◌%◌, ◌≤◌, ◌≡◌, ◌⊎◌, inl, inr, refl, true, false, Option, none, if◌then◌else◌, ◌==◌,
  Bool-cases, some, List, [], ◌∷◌, length, arith, zero, suc, ap,
}
use sentry_usb.Base.Text.{has_prefix}
use sentry_usb.Base.Exec.{answered, unreachable, done}
use sentry_usb.LockChime.Library
use sentry_usb.LockChime.Library.{SoundEntry, Listing, show_toast, error}
use sentry_usb.LockChime.Actions.{clear, IsPerformed, perform, perform-outcome}
use sentry_usb.LockChime.Pages.{lib_total_pages, page_sounds}
use sentry_usb.LockChime.Shown.{first_pages, pages_complete}
use sentry_usb.LockChime.Names.{strip_extension}
use sentry_usb.LockChime.Selection.{
  Browser, AudioBuffer, AudioFile, convert_to_wav, handle_file_selected,
}
use sentry_usb.LockChime.Sizes.{handle_file_selected-taken}

abbrev beep : SoundEntry
beep = record { name = "beep.wav"; size = 10; active = true }

abbrev listing : Listing
listing = record { sounds = beep ∷ beep ∷ []; active_name = "beep.wav"; active_set = true }

abbrev library : Library.Library
library = record {
  listing = listing;
  is_loading = false;
  playing_name = some "beep.wav";
  uploading = false;
  activating = none;
  deleting = none;
  clearing = false;
  randomizing = false;
  delete_confirm = none;
  lib_page = 4;
  pending_file = none;
  pending_name = "";
  toast = none;
}

perform-outcome_example :
    IsPerformed
      (clear (answered done))
      (unreachable "offline")
      library
      (perform (clear (answered done)) (unreachable "offline") library)
perform-outcome_example =
    perform-outcome (clear (answered done)) (unreachable "offline") library refl

pages_complete_example :
    (first_pages (lib_total_pages (beep ∷ beep ∷ [])) (beep ∷ beep ∷ []) ≡ beep ∷ beep ∷ [])
    × (1 ≤ length (page_sounds library))
    × (length (page_sounds library) ≤ 15)
pages_complete_example = pages_complete library (omega arith) (omega arith)

-- Samples as numbers, and a renderer that gives silence.
abbrev silences : ℕ → List ℕ
silences zero = []
silences (suc n) = 0 ∷ silences n

length-silences : (frames : ℕ) → length (silences frames) ≡ frames
length-silences zero = refl
length-silences (suc n) = ap suc (length-silences n)

-- A buffer at the rate of 7 is refused.
abbrev play : List ℕ → ℕ → ℕ → Option (List ℕ)
play samples rate frames = if rate == 7 then none else some (silences frames)

length-play :
    (samples rendered : List ℕ) (rate frames : ℕ)
    → play samples rate frames ≡ some rendered
    → length rendered ≡ frames
length-play samples rendered rate frames = elim (Bool-cases (rate == 7)) [
  | inl refused ↦ rw refused (λ e. ground (arith, e))
  | inr played ↦ rw played (λ e. ground (arith, e, length-silences frames))
]

abbrev quiet : Browser ℕ
quiet = record {
  silence = 0;
  add = λ a b. a + b;
  divide = λ a n. a / n;
  quantize = λ a. a % 65536;
  render = play;
  length_render = length-play;
}

abbrev short : AudioBuffer ℕ
short = record { frames = 2; sample_rate = 44100; channels = (1 ∷ 2 ∷ []) ∷ (3 ∷ 4 ∷ []) ∷ [] }

abbrev file : AudioFile ℕ
file = record {
  name = "my.beep.mp3";
  type = "audio/mpeg";
  decoded = some short;
  decoded_again = some short;
}

handle_file_selected-taken_example :
    ((convert_to_wav quiet (some short) ≡ none)
      × (handle_file_selected quiet file library
          ≡ show_toast "Failed to convert audio to WAV" error library))
    ⊎ ((bytes : List ℕ) × (convert_to_wav quiet (some short) ≡ some bytes)
        × (length bytes ≤ 441044)
        × (handle_file_selected quiet file library ≡ record library {
          pending_file =
              some (record { file_name = strip_extension file.name; size = length bytes });
          pending_name = strip_extension file.name;
        }))
unfolding has_prefix
handle_file_selected-taken_example =
    handle_file_selected-taken quiet file short library refl refl (inl refl) (omega arith)
      (omega arith)

named : strip_extension "my.beep.mp3" ≡ "my.beep"
unfolding strip_extension
named = refl
