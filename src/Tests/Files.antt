-- ===== src/Tests/Files.antt =====
-- Concrete WAV files and notes, for the theorems on packages/go/audio and apps/mcp-notes.
use nova2sonici_osapp.Common.{◌≡◌, refl, false, true, none, some, [], ◌∷◌, ◌++◌, arith}
use nova2sonici_osapp.Common.Assoc.{lookup, insert}
use nova2sonici_osapp.Common.Fallible.{ok}
use nova2sonici_osapp.Common.Text.{codes, eq_text}
use nova2sonici_osapp.Audio.Wav.{read_chunks, read_pcm16_wav, header, write_pcm16_wav}
use nova2sonici_osapp.Audio.Written.{read-write}
use nova2sonici_osapp.Audio.Fuel.{read_chunks-enough}
use nova2sonici_osapp.Notes.Store.{
  Host, Fresh, Store, Mutation, validates, note_value, create, delete_row, affected, delete_note,
  apply, transact, attempt, mutate,
}
use nova2sonici_osapp.Notes.Kept.{IsKept, all_valid, distinct, mutate-IsKept}
use nova2sonici_osapp.Tests.Toy.{toy_json}

read-write_example :
    read_pcm16_wav (header 4 16000 ++ 1 ∷ 2 ∷ 3 ∷ 4 ∷ []) 16000 4 ≡ ok (1 ∷ 2 ∷ 3 ∷ 4 ∷ [])
unfolding write_pcm16_wav header
read-write_example =
    read-write (1 ∷ 2 ∷ 3 ∷ 4 ∷ []) (header 4 16000 ++ 1 ∷ 2 ∷ 3 ∷ 4 ∷ []) 16000 4 refl
      (omega arith)

read_chunks-enough_example :
    read_chunks 16000 4 12
      (b'j' ∷ b'u' ∷ b'n' ∷ b'k' ∷ 0 ∷ 0 ∷ 0 ∷ 0 ∷ [])
      (record { valid_format = false; pcm = none })
    ≡ read_chunks 16000 4 8
        (b'j' ∷ b'u' ∷ b'n' ∷ b'k' ∷ 0 ∷ 0 ∷ 0 ∷ 0 ∷ [])
        (record { valid_format = false; pcm = none })
read_chunks-enough_example =
    read_chunks-enough 16000 4 8 12 (b'j' ∷ b'u' ∷ b'n' ∷ b'k' ∷ 0 ∷ 0 ∷ 0 ∷ 0 ∷ [])
      (record { valid_format = false; pcm = none }) (omega arith) (omega arith)

abbrev host : Host
host = record {
  json = toy_json;
  decode_input = λ t. some (record { title = codes "t"; content = codes "c"; id = [] });
  is_space = λ c. false;
  matches = λ s q. true;
}

abbrev one_note : Store
one_note = record {
  notes = record { id = codes "a"; title = codes "t"; content = codes "c"; created_at = [] } ∷ [];
  notes_operations = [];
}

abbrev fresh : Fresh
fresh = record { id = codes "b"; created_at = []; completed_at = [] }

abbrev creates : Mutation
creates = record { key = codes "k"; name = codes "notes.create"; args = [] }

mutate-IsKept_example : IsKept host (mutate host fresh creates one_note).0.notes
unfolding all_valid distinct validates
mutate-IsKept_example =
    mutate-IsKept host fresh creates one_note (record { valid = refl; apart = refl })

creates_a_note : (mutate host fresh creates one_note).1 ≡ ok []
unfolding validates note_value create delete_row affected delete_note apply transact attempt mutate
    lookup insert eq_text
creates_a_note = refl
