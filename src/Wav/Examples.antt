-- ===== src/Wav/Examples.antt =====
-- web/src/pages/LockChime.tsx: a file of three samples.
use sentry_usb.Base.{ℕ, ◌+◌, ◌*◌, ◌≡◌, some, List, [], ◌∷◌, arith, length}
use sentry_usb.Wav.{riff, wave, fmt, data_tag, encode_mono_wav}
use sentry_usb.Wav.Layout.{u16_at, u32_at, tag_at, drop, read_samples, encode_mono_wav-fields}

abbrev tone : List ℕ
tone = 0 ∷ 65535 ∷ 258 ∷ []

encode_mono_wav-fields_example :
    let b = encode_mono_wav tone 44100 in
    ((tag_at b 0 ≡ riff) × (tag_at b 8 ≡ wave) × (tag_at b 12 ≡ fmt) × (tag_at b 36 ≡ data_tag))
    × ((u32_at b 16 ≡ 16)
        × (u16_at b 20 ≡ 1)
        × (u16_at b 22 ≡ 1)
        × (u16_at b 32 ≡ 2)
        × (u16_at b 34 ≡ 16))
    × ((u32_at b 4 + 8 ≡ length b)
        × (u32_at b 24 ≡ 44100)
        × (u32_at b 28 ≡ 44100 * 2)
        × (u32_at b 40 + 44 ≡ length b))
    × (read_samples (drop 44 b) ≡ some tone)
encode_mono_wav-fields_example =
    encode_mono_wav-fields tone 44100 (omega arith, (omega arith, (omega arith, tt))) (omega arith)
      (omega arith)
