-- ===== src/Wav.antt =====
-- web/src/pages/LockChime.tsx: the WAV encoder of the lock sounds, on bytes. The audio decoder and
-- the resampling are the browser's; samples arrive as 16-bit numbers (two's complement).
pub mod Layout
mod Examples
use sentry_usb.Base.{ℕ, zero, suc, ◌+◌, ◌*◌, ◌/◌, ◌%◌, List, [], ◌∷◌, ◌++◌, length, String}

-- a write of one byte into the buffer
abbrev pub set_byte : ℕ → ℕ → List ℕ → List ℕ
set_byte i v [] = []
set_byte zero v (b ∷ bs) = v % 256 ∷ bs
set_byte (suc i) v (b ∷ bs) = b ∷ set_byte i v bs

-- the buffer of so many zero bytes
abbrev pub zeros : ℕ → List ℕ
zeros zero = []
zeros (suc n) = 0 ∷ zeros n

-- `setUint16` and `setUint32`, little endian
unfoldable pub set_uint16 : ℕ → ℕ → List ℕ → List ℕ
set_uint16 i v b = set_byte (suc i) (v / 256) (set_byte i v b)

unfoldable pub set_uint32 : ℕ → ℕ → List ℕ → List ℕ
set_uint32 i v b =
    set_byte (suc (suc (suc i))) (v / 16777216)
      (set_byte (suc (suc i)) (v / 65536) (set_byte (suc i) (v / 256) (set_byte i v b)))

-- `writeStr`, with the character codes of the text
unfoldable pub write_str : List ℕ → ℕ → List ℕ → List ℕ
write_str [] i b = b
write_str (c ∷ cs) i b = write_str cs (suc i) (set_byte i c b)

abbrev pub riff : List ℕ
riff = 82 ∷ 73 ∷ 70 ∷ 70 ∷ []

abbrev pub wave : List ℕ
wave = 87 ∷ 65 ∷ 86 ∷ 69 ∷ []

abbrev pub fmt : List ℕ
fmt = 102 ∷ 109 ∷ 116 ∷ 32 ∷ []

abbrev pub data_tag : List ℕ
data_tag = 100 ∷ 97 ∷ 116 ∷ 97 ∷ []

-- `new Int16Array(buffer, 44).set(pcm)`
unfoldable pub pcm_bytes : List ℕ → List ℕ
pcm_bytes [] = []
pcm_bytes (s ∷ samples) = s % 256 ∷ s / 256 % 256 ∷ pcm_bytes samples

-- `encodeMonoWav` from the 16-bit samples on: the header is written into the first 44 bytes of
-- the buffer, field by field, and the samples into the rest.
unfoldable pub encode_header : ℕ → ℕ → List ℕ
unfolding set_uint16 set_uint32 write_str
encode_header data_size sample_rate = set_uint32 40 data_size (
    write_str data_tag 36 (
      set_uint16 34 16 (
        set_uint16 32 2 (
          set_uint32 28 (sample_rate * 1 * 16 / 8) (
            set_uint32 24 sample_rate (
              set_uint16 22 1 (
                set_uint16 20 1 (
                  set_uint32 16 16 (
                    write_str fmt 12 (
                      write_str wave 8
                        (set_uint32 4 (36 + data_size) (write_str riff 0 (zeros 44)))))))))))))

unfoldable pub encode_mono_wav : List ℕ → ℕ → List ℕ
unfolding encode_header pcm_bytes
encode_mono_wav samples sample_rate =
    encode_header (length samples * 2) sample_rate ++ pcm_bytes samples
