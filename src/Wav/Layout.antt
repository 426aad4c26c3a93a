-- ===== src/Wav/Layout.antt =====
-- web/src/pages/LockChime.tsx: the encoded file, read by the rules of the format.
use sentry_usb.Base.{
  ℕ, zero, suc, ◌+◌, ◌*◌, ◌/◌, ◌%◌, ◌<◌, ◌≡◌, refl, ap, ◌∙◌, Option, none, some, List, [], ◌∷◌,
  ◌++◌, arith, length, get_or, All,
}
use sentry_usb.Wav.{
  riff, wave, fmt, data_tag, pcm_bytes, encode_header, encode_mono_wav, set_uint16, set_uint32,
  write_str,
}

-- Numbers in a file, little endian, and the four bytes of a tag.
abbrev pub u16_at : List ℕ → ℕ → ℕ
u16_at b i = get_or b i 0 + 256 * get_or b (suc i) 0

abbrev pub u32_at : List ℕ → ℕ → ℕ
u32_at b i = u16_at b i + 65536 * u16_at b (suc (suc i))

abbrev pub tag_at : List ℕ → ℕ → List ℕ
tag_at b i =
    get_or b i 0
    ∷ get_or b (suc i) 0
    ∷ get_or b (suc (suc i)) 0
    ∷ get_or b (suc (suc (suc i))) 0
    ∷ []

abbrev pub drop : ℕ → List ℕ → List ℕ
drop zero b = b
drop (suc n) [] = []
drop (suc n) (x ∷ b) = drop n b

-- the samples of the bytes behind the header
abbrev pub more_samples : ℕ → Option (List ℕ) → Option (List ℕ)
more_samples s none = none
more_samples s (some samples) = some (s ∷ samples)

unfoldable pub read_samples : List ℕ → Option (List ℕ)
read_samples [] = some []
read_samples (a ∷ []) = none
read_samples (a ∷ b ∷ bs) = more_samples (a + 256 * b) (read_samples bs)

read_samples-pcm_bytes :
    (samples : List ℕ)
    → All (λ s. s < 65536) samples
    → read_samples (pcm_bytes samples) ≡ some samples
unfolding read_samples pcm_bytes
read_samples-pcm_bytes [] h = refl
read_samples-pcm_bytes (s ∷ samples) (small, h) =
    let value : s % 256 + 256 * (s / 256 % 256) ≡ s = omega (arith, small) in
    rw (value, read_samples-pcm_bytes samples h) refl

length-pcm_bytes : (samples : List ℕ) → length (pcm_bytes samples) ≡ length samples * 2
unfolding pcm_bytes
length-pcm_bytes [] = omega arith
length-pcm_bytes (s ∷ samples) = omega (arith, length-pcm_bytes samples)

-- The fields of the header, for any bytes behind it.
header-fields :
    (n rate : ℕ) (rest : List ℕ)
    → 36 + n < 4294967296
    → rate * 2 < 4294967296
    → let b = encode_header n rate ++ rest in
      ((tag_at b 0 ≡ riff) × (tag_at b 8 ≡ wave) × (tag_at b 12 ≡ fmt) × (tag_at b 36 ≡ data_tag))
      × ((u32_at b 16 ≡ 16)
          × (u16_at b 20 ≡ 1)
          × (u16_at b 22 ≡ 1)
          × (u16_at b 32 ≡ 2)
          × (u16_at b 34 ≡ 16))
      × ((u32_at b 4 ≡ 36 + n)
          × (u32_at b 24 ≡ rate)
          × (u32_at b 28 ≡ rate * 2)
          × (u32_at b 40 ≡ n))
      × (drop 44 b ≡ rest)
unfolding encode_header set_uint16 set_uint32 write_str
header-fields n rate rest small slow = (
  (refl, refl, refl, refl),
  (refl, refl, refl, refl, refl),
  (omega (arith, small), omega (arith, slow), omega (arith, slow), omega (arith, small)),
  refl,
)

-- The encoded file as a reader finds it, when its size and its byte rate fit in 32 bits: the tags
-- and the fixed fields of mono PCM with 16 bits, sizes that agree with the file's length, the
-- sample rate, and behind the 44 bytes of the header the samples.
pub encode_mono_wav-fields :
    (samples : List ℕ) (rate : ℕ)
    → All (λ s. s < 65536) samples
    → 36 + length samples * 2 < 4294967296
    → rate * 2 < 4294967296
    → let b = encode_mono_wav samples rate in
      ((tag_at b 0 ≡ riff) × (tag_at b 8 ≡ wave) × (tag_at b 12 ≡ fmt) × (tag_at b 36 ≡ data_tag))
      × ((u32_at b 16 ≡ 16)
          × (u16_at b 20 ≡ 1)
          × (u16_at b 22 ≡ 1)
          × (u16_at b 32 ≡ 2)
          × (u16_at b 34 ≡ 16))
      × ((u32_at b 4 + 8 ≡ length b)
          × (u32_at b 24 ≡ rate)
          × (u32_at b 28 ≡ rate * 2)
          × (u32_at b 40 + 44 ≡ length b))
      × (read_samples (drop 44 b) ≡ some samples)
unfolding encode_mono_wav
encode_mono_wav-fields samples rate h small slow =
    let n = length samples * 2 in
    let fields = header-fields n rate (pcm_bytes samples) small slow in
    let size : length (encode_mono_wav samples rate) ≡ 44 + n =
      omega (arith, length-pcm_bytes samples) in
    let sizes = fields.2 in
    (
      fields.0,
      fields.1,
      (omega (arith, size, sizes.0), sizes.1, sizes.2, omega (arith, size, sizes.3)),
      ap read_samples fields.3 ∙ read_samples-pcm_bytes samples h,
    )

pub length-encode_mono_wav :
    (samples : List ℕ) (rate : ℕ) → length (encode_mono_wav samples rate) ≡ 44 + length samples * 2
unfolding encode_mono_wav encode_header set_uint16 set_uint32 write_str
length-encode_mono_wav samples rate = omega (arith, length-pcm_bytes samples)
