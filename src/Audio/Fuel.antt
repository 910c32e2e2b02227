-- ===== src/Audio/Fuel.antt =====
-- packages/go/audio/wav.go: the loop over the chunks ends.
use nova2sonici_osapp.Common.{
  ℕ, zero, suc, ◌+◌, ◌-◌, ◌%◌, ◌≤◌, ◌<◌, ◌≡◌, refl, inl, inr, [], ◌∷◌, arith, length, drop, take,
}
use nova2sonici_osapp.Common.Fallible.{ok, Fallible-cases}
use nova2sonici_osapp.Audio.Wav.{
  Bytes, Seen, uint32, read_chunk, read_sized, read_next, read_chunks,
}

length-drop : (n : ℕ) (s : Bytes) → length (drop n s) ≡ length s - n
length-drop zero s = omega arith
length-drop (suc n) [] = omega arith
length-drop (suc n) (b ∷ s) = omega (arith, length-drop n s)

-- A round that goes on leaves fewer bytes.
read_next-shorter :
    (sample_rate max_bytes : ℕ) (rest next : Bytes) (s s' : Seen)
    → read_next sample_rate max_bytes rest s ≡ ok (s', next)
    → length next < length rest
unfolding read_next read_sized
read_next-shorter sample_rate max_bytes rest next s s' done =
    let size = uint32 (drop 4 rest) in
    elim (Fallible-cases
      (read_chunk sample_rate max_bytes (take 4 rest) (take size (drop 8 rest)) s)) [
        | inl (e, bad) ↦ absurd (ground arith)
        | inr (t, good) ↦
            let cut = length-drop (8 + size + size % 2) rest in
            let made : next ≡ drop (8 + size + size % 2) rest = ground arith in
            let some_bytes : 8 ≤ length rest = ground arith in rw made (omega arith)
      ]

-- From a fuel that is not below the number of bytes on, the loop gives one and the same result.
pub read_chunks-enough :
    (sample_rate max_bytes fuel more : ℕ) (rest : Bytes) (s : Seen)
    → length rest ≤ fuel
    → fuel ≤ more
    → read_chunks sample_rate max_bytes more rest s ≡ read_chunks sample_rate max_bytes fuel rest s
unfolding read_chunks
read_chunks-enough sample_rate max_bytes fuel more [] s le more_le = refl
read_chunks-enough sample_rate max_bytes zero more (b ∷ rest) s le more_le = absurd (omega arith)
read_chunks-enough sample_rate max_bytes (suc fuel) zero (b ∷ rest) s le more_le =
    absurd (omega arith)
read_chunks-enough sample_rate max_bytes (suc fuel) (suc more) (b ∷ rest) s le more_le =
    elim (Fallible-cases (read_next sample_rate max_bytes (b ∷ rest) s)) [
      | inl (e, bad) ↦ rw (read_chunks, bad) refl
      | inr ((s', next), good) ↦
          let shorter = read_next-shorter sample_rate max_bytes (b ∷ rest) next s s' good in
          rw (read_chunks, good)
            (read_chunks-enough sample_rate max_bytes fuel more next s' (omega arith) (omega arith))
    ]
