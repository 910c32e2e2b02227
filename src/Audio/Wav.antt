-- ===== src/Audio/Wav.antt =====
-- packages/go/audio/wav.go, over lists of bytes.
use nova2sonici_osapp.Common.{
  ℕ, zero, suc, ◌+◌, ◌*◌, ◌/◌, ◌%◌, Bool, true, false, not, ◌||◌, Option, none, some, List, [], ◌∷◌,
  ◌++◌, length, take, drop, is_some, ltb, ◌==◌, if◌then◌else◌,
}
use nova2sonici_osapp.Common.Fallible.{Fallible, ok, err}
use nova2sonici_osapp.Common.Text.{codes, eq_text}

abbrev pub Bytes : Type 0
Bytes = List ℕ

-- binary.LittleEndian of the first bytes of a list; what is missing counts as 0, and each use is
-- behind a test of the length.
abbrev pub byte : ℕ → Bytes → ℕ
byte n [] = 0
byte zero (b ∷ bs) = b
byte (suc n) (b ∷ bs) = byte n bs

abbrev pub uint16 : Bytes → ℕ
uint16 bs = byte 0 bs + 256 * byte 1 bs

abbrev pub uint32 : Bytes → ℕ
uint32 bs = byte 0 bs + 256 * byte 1 bs + 65536 * byte 2 bs + 16777216 * byte 3 bs

abbrev pub put_uint16 : ℕ → Bytes
put_uint16 n = n % 256 ∷ n / 256 % 256 ∷ []

abbrev pub put_uint32 : ℕ → Bytes
put_uint32 n = n % 256 ∷ n / 256 % 256 ∷ n / 65536 % 256 ∷ n / 16777216 % 256 ∷ []

unfoldable pub bad_format : ℕ → Bytes → Bool
bad_format sample_rate chunk =
    ltb (length chunk) 16
    || not (uint16 chunk == 1)
    || not (uint16 (drop 2 chunk) == 1)
    || not (uint32 (drop 4 chunk) == sample_rate)
    || not (uint16 (drop 12 chunk) == 2)
    || not (uint16 (drop 14 chunk) == 16)

unfoldable pub bad_data : ℕ → Option Bytes → Bytes → Bool
bad_data max_bytes pcm chunk =
    is_some pcm || length chunk == 0 || ltb max_bytes (length chunk) || not (length chunk % 2 == 0)

-- What is known while the chunks are read: a good format was seen, and the samples.
pub record Seen : Type 0 where
  pub valid_format : Bool
  pub pcm : Option Bytes

unfoldable pub read_chunk : ℕ → ℕ → Bytes → Bytes → Seen → Fallible Seen
unfolding bad_format bad_data
read_chunk sample_rate max_bytes name chunk s =
    if eq_text name (codes "fmt ")
    then (if bad_format sample_rate chunk
        then err (codes "WAV must be PCM16 mono")
        else ok (record s { valid_format = true }))
    else if eq_text name (codes "data")
    then (if bad_data max_bytes s.pcm chunk
        then err (codes "invalid PCM data")
        else ok (record s { pcm = some chunk }))
    else ok s

-- One round of the loop, at a size that the chunk states: what is known then, and the bytes from the
-- next offset on.
unfoldable pub read_sized : ℕ → ℕ → Bytes → ℕ → Seen → Fallible (Seen × Bytes)
unfolding read_chunk
read_sized sample_rate max_bytes rest size s =
    if ltb (length rest) (8 + size)
    then err (codes "truncated WAV payload")
    else elim (read_chunk sample_rate max_bytes (take 4 rest) (take size (drop 8 rest)) s) [
      | err e ↦ err e
      | ok s' ↦
          if ltb (length rest) (8 + size + size % 2)
          then err (codes "missing WAV chunk padding")
          else ok (s', drop (8 + size + size % 2) rest)
    ]

unfoldable pub read_next : ℕ → ℕ → Bytes → Seen → Fallible (Seen × Bytes)
unfolding read_sized
read_next sample_rate max_bytes rest s =
    if ltb (length rest) 8
    then err (codes "truncated WAV chunk")
    else read_sized sample_rate max_bytes rest (uint32 (drop 4 rest)) s

-- The loop over the chunks, on fuel; `rest` are the bytes from the offset on.
unfoldable pub read_chunks : ℕ → ℕ → ℕ → Bytes → Seen → Fallible Seen
unfolding read_next
read_chunks sample_rate max_bytes fuel [] s = ok s
read_chunks sample_rate max_bytes zero (b ∷ rest) s = err (codes "out of fuel")
read_chunks sample_rate max_bytes (suc fuel) (b ∷ rest) s =
    elim (read_next sample_rate max_bytes (b ∷ rest) s) [
      | err e ↦ err e
      | ok (s', next) ↦ read_chunks sample_rate max_bytes fuel next s'
    ]

unfoldable pub bad_file : ℕ → Bytes → Bool
bad_file max_bytes wav =
    ltb (max_bytes + 4096) (length wav)
    || ltb (length wav) 12
    || not (eq_text (take 4 wav) (codes "RIFF"))
    || not (eq_text (take 4 (drop 8 wav)) (codes "WAVE"))

unfoldable pub bad_size : Bytes → Bool
bad_size wav = not (uint32 (drop 4 wav) + 8 == length wav)

abbrev pub samples_of : Seen → Fallible Bytes
samples_of s =
    if not s.valid_format
    then err (codes "WAV requires fmt and data chunks")
    else elim s.pcm [ none ↦ err (codes "WAV requires fmt and data chunks") | some pcm ↦ ok pcm ]

-- Fuel for a round at each byte; a round goes on by eight bytes at least.
unfoldable pub read_pcm16_wav : Bytes → ℕ → ℕ → Fallible Bytes
unfolding bad_file bad_size read_chunks
read_pcm16_wav wav sample_rate max_bytes =
    if bad_file max_bytes wav
    then err (codes "invalid or oversized WAV")
    else if bad_size wav
    then err (codes "invalid RIFF size")
    else elim (read_chunks sample_rate max_bytes (length wav) (drop 12 wav)
        (record { valid_format = false; pcm = none })) [ err e ↦ err e | ok s ↦ samples_of s ]

-- The 44 bytes before the samples.
unfoldable pub header : ℕ → ℕ → Bytes
header size sample_rate =
    codes "RIFF"
    ++ put_uint32 (36 + size)
    ++ codes "WAVEfmt "
    ++ put_uint32 16
    ++ put_uint16 1
    ++ put_uint16 1
    ++ put_uint32 sample_rate
    ++ put_uint32 (sample_rate * 2)
    ++ put_uint16 2
    ++ put_uint16 16
    ++ codes "data"
    ++ put_uint32 size

-- What is written where the writer takes all of it.
unfoldable pub write_pcm16_wav : Bytes → ℕ → Fallible Bytes
unfolding header
write_pcm16_wav pcm sample_rate =
    if length pcm == 0
      || not (length pcm % 2 == 0)
      || ltb (30 * 48000 * 2) (length pcm)
      || ltb sample_rate 8000
      || ltb 48000 sample_rate
    then err (codes "invalid output PCM format or size")
    else ok (header (length pcm) sample_rate ++ pcm)
