-- ===== src/Audio/Written.antt =====
-- packages/go/audio/wav.go: a file that was written is read back.
use nova2sonici_osapp.Common.{
  ℕ, zero, suc, ◌+◌, ◌*◌, ◌/◌, ◌%◌, ◌≤◌, ◌<◌, ◌≡◌, refl, ap, true, false, none, some, [], ◌∷◌, ◌++◌,
  arith, length, take, drop,
}
use nova2sonici_osapp.Common.Fallible.{ok}
use nova2sonici_osapp.Common.Text.{codes, eq_text}
use nova2sonici_osapp.Audio.Wav.{
  Bytes, uint32, put_uint16, put_uint32, bad_format, bad_data, read_chunk, read_sized, read_next,
  read_chunks, bad_file, bad_size, read_pcm16_wav, header, write_pcm16_wav,
}

uint32-put : (n : ℕ) (rest : Bytes) → n < 4294967296 → uint32 (put_uint32 n ++ rest) ≡ n
uint32-put n rest small = omega arith

take-length : (s : Bytes) → take (length s) s ≡ s
take-length [] = refl
take-length (c ∷ s) = ap (λ t. c ∷ t) (take-length s)

drop-length : (s : Bytes) → drop (length s) s ≡ []
drop-length [] = refl
drop-length (c ∷ s) = drop-length s

abbrev data_chunk : Bytes → Bytes
data_chunk pcm = codes "data" ++ put_uint32 (length pcm) ++ pcm

drop-eight :
    (k : ℕ) (a b c d e f g h : ℕ) (s : Bytes)
    → k ≡ 8 + length s
    → drop k (a ∷ b ∷ c ∷ d ∷ e ∷ f ∷ g ∷ h ∷ s) ≡ []
drop-eight k a b c d e f g h s same =
    let n = length s in
    let sucs : k ≡ suc (suc (suc (suc (suc (suc (suc (suc n))))))) = omega (arith, same) in
    rw sucs (drop-length s)

-- The round of the samples.
read_sized-data :
    (sample_rate max_bytes : ℕ) (pcm : Bytes)
    → 0 < length pcm
    → length pcm ≤ max_bytes
    → length pcm % 2 ≡ 0
    → read_sized sample_rate max_bytes
        (data_chunk pcm)
        (length pcm)
        (record { valid_format = true; pcm = none })
      ≡ ok (record { valid_format = true; pcm = some pcm }, [])
unfolding read_sized read_chunk bad_data eq_text
read_sized-data sample_rate max_bytes pcm some_bytes fits even =
    let n = length pcm in
    let gone =
      drop-eight (8 + n + n % 2) b'd' b'a' b't' b'a' (n % 256) (n / 256 % 256) (n / 65536 % 256)
        (n / 16777216 % 256) pcm (omega arith) in
    ground (arith, take-length pcm, gone)

read-data :
    (sample_rate max_bytes fuel : ℕ) (pcm : Bytes)
    → 0 < length pcm
    → length pcm ≤ max_bytes
    → length pcm < 4294967296
    → length pcm % 2 ≡ 0
    → read_chunks sample_rate max_bytes
        (suc fuel)
        (data_chunk pcm)
        (record { valid_format = true; pcm = none })
      ≡ ok (record { valid_format = true; pcm = some pcm })
unfolding read_chunks read_next
read-data sample_rate max_bytes fuel pcm some_bytes fits small even =
    let size = uint32-put (length pcm) pcm small in
    let round = read_sized-data sample_rate max_bytes pcm some_bytes fits even in
    ground (arith, size, round)

abbrev format_chunk : ℕ → Bytes → Bytes
format_chunk sample_rate rest =
    codes "fmt "
    ++ put_uint32 16
    ++ put_uint16 1
    ++ put_uint16 1
    ++ put_uint32 sample_rate
    ++ put_uint32 (sample_rate * 2)
    ++ put_uint16 2
    ++ put_uint16 16
    ++ rest

read-format :
    (sample_rate max_bytes : ℕ) (rest : Bytes)
    → sample_rate < 4294967296
    → read_next sample_rate max_bytes
        (format_chunk sample_rate rest)
        (record { valid_format = false; pcm = none })
      ≡ ok (record { valid_format = true; pcm = none }, rest)
unfolding read_next read_sized read_chunk bad_format eq_text
read-format sample_rate max_bytes rest small =
    let rate = uint32-put sample_rate [] small in ground (arith, rate)

read-both :
    (sample_rate max_bytes fuel : ℕ) (pcm : Bytes)
    → 2 ≤ fuel
    → 0 < length pcm
    → length pcm % 2 ≡ 0
    → length pcm ≤ 2880000
    → sample_rate ≤ 48000
    → length pcm ≤ max_bytes
    → read_chunks sample_rate max_bytes fuel
        (format_chunk sample_rate (data_chunk pcm))
        (record { valid_format = false; pcm = none })
      ≡ ok (record { valid_format = true; pcm = some pcm })
unfolding read_chunks
read-both sample_rate max_bytes zero pcm two some_bytes even short slow fits = absurd (omega arith)
read-both sample_rate max_bytes (suc zero) pcm two some_bytes even short slow fits =
    absurd (omega arith)
read-both sample_rate max_bytes (suc (suc fuel)) pcm two some_bytes even short slow fits =
    rw (read_chunks, read-format sample_rate max_bytes (data_chunk pcm) (omega arith))
      (read-data sample_rate max_bytes fuel pcm some_bytes fits (omega arith) even)

module _ (pcm : Bytes) (sample_rate max_bytes : ℕ) (short : length pcm ≤ 2880000)
    (fits : length pcm ≤ max_bytes) where
  header-bad_file : bad_file max_bytes (header (length pcm) sample_rate ++ pcm) ≡ false
  unfolding bad_file header eq_text
  header-bad_file = ground arith

  header-bad_size : bad_size (header (length pcm) sample_rate ++ pcm) ≡ false
  unfolding bad_size header
  header-bad_size = let size = uint32-put (36 + length pcm) [] (omega arith) in ground (arith, size)

  header-chunks :
      0 < length pcm
      → length pcm % 2 ≡ 0
      → sample_rate ≤ 48000
      → read_chunks sample_rate max_bytes
          (length (header (length pcm) sample_rate ++ pcm))
          (drop 12 (header (length pcm) sample_rate ++ pcm))
          (record { valid_format = false; pcm = none })
        ≡ ok (record { valid_format = true; pcm = some pcm })
  unfolding header
  header-chunks some_bytes even slow =
      read-both sample_rate max_bytes (length (header (length pcm) sample_rate ++ pcm)) pcm
        (omega arith) some_bytes even short slow fits

  read-header :
      0 < length pcm
      → length pcm % 2 ≡ 0
      → sample_rate ≤ 48000
      → read_pcm16_wav (header (length pcm) sample_rate ++ pcm) sample_rate max_bytes ≡ ok pcm
  unfolding read_pcm16_wav
  read-header some_bytes even slow =
      rw (read_pcm16_wav, header-bad_file, header-bad_size)
        (rw (header-chunks some_bytes even slow) refl)

-- The bytes that WritePCM16WAV writes are a file that ReadPCM16WAV reads at the same rate, where its limit
-- is not below the number of bytes of the samples, and what it reads are these samples.
pub read-write :
    (pcm wav : Bytes) (sample_rate max_bytes : ℕ)
    → write_pcm16_wav pcm sample_rate ≡ ok wav
    → length pcm ≤ max_bytes
    → read_pcm16_wav wav sample_rate max_bytes ≡ ok pcm
unfolding write_pcm16_wav
read-write pcm wav sample_rate max_bytes wrote fits =
    let made : wav ≡ header (length pcm) sample_rate ++ pcm = ground arith in
    rw made (
      read-header pcm sample_rate max_bytes (ground arith) fits (ground arith) (ground arith)
        (ground arith))
