-- ===== src/AgentWire/Identifier.antt =====
-- packages/go/agentwire/protocol.go and packages/go/voicewire/event.go: the ids of the two contracts.
use nova2sonici_osapp.Common.{
  ℕ, ◌≤◌, ◌≡◌, refl, Bool, true, false, [], ◌∷◌, arith, all, length, &&-true,
}
use nova2sonici_osapp.Common.Text.{Text, len, width}
use nova2sonici_osapp.Voice.Id.{is_alphanumeric, is_id_code, valid_id}
use nova2sonici_osapp.AgentWire.Protocol.{identifier, is_identifier_code}

unfoldable pub starts_alphanumeric : Text → Bool
starts_alphanumeric [] = false
starts_alphanumeric (c ∷ s) = is_alphanumeric c

id_code-ascii : (c : ℕ) → is_id_code c ≡ true → (is_identifier_code c ≡ true) × (width c ≡ 1)
unfolding is_id_code is_identifier_code
id_code-ascii c h = (ground arith, ground arith)

all-id_code :
    (s : Text) → all is_id_code s ≡ true → (all is_identifier_code s ≡ true) × (len s ≡ length s)
all-id_code [] h = (refl, refl)
all-id_code (c ∷ s) h =
    let (first, rest) = &&-true (is_id_code c) (all is_id_code s) h in
    let (code, one) = id_code-ascii c first in
    let (codes', same) = all-id_code s rest in (ground arith, omega arith)

valid_id-parts : (id : Text) → valid_id id ≡ true → (len id ≤ 128) × (all is_id_code id ≡ true)
unfolding valid_id
valid_id-parts id h = (ground arith, ground arith)

-- An id of the voice contract is an identifier of the agent contract exactly if it starts with a
-- letter or a digit: the voice contract also admits a leading underscore or hyphen.
pub identifier-valid_id : (id : Text) → valid_id id ≡ true → identifier id ≡ starts_alphanumeric id
unfolding identifier starts_alphanumeric
identifier-valid_id [] h = refl
identifier-valid_id (c ∷ s) h =
    let (short, coded) = valid_id-parts (c ∷ s) h in
    let (first, rest) = &&-true (is_id_code c) (all is_id_code s) coded in
    let (_, one) = id_code-ascii c first in
    let (coded', same) = all-id_code s rest in
    let fits : length s ≤ 127 = omega arith in ground arith
