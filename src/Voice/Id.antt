-- ===== src/Voice/Id.antt =====
-- packages/go/voicewire/event.go, ValidID.
use nova2sonici_osapp.Common.{ℕ, Bool, false, ◌&&◌, ◌||◌, leb, ltb, ◌==◌, if◌then◌else◌, all}
use nova2sonici_osapp.Common.Text.{Text, len}

abbrev pub within : ℕ → ℕ → ℕ → Bool
within lo hi c = leb lo c && leb c hi

abbrev pub is_alphanumeric : ℕ → Bool
is_alphanumeric c = within b'a' b'z' c || within b'A' b'Z' c || within b'0' b'9' c

unfoldable pub is_id_code : ℕ → Bool
is_id_code c = is_alphanumeric c || c == b'_' || c == b'-'

unfoldable pub valid_id : Text → Bool
unfolding is_id_code
valid_id id = if len id == 0 || ltb 128 (len id) then false else all is_id_code id
