-- ===== src/Mcp/Envelope.antt =====
-- packages/go/mcpwire/envelope.go: host decisions that are signed into a tool's arguments.
-- encoding/json, encoding/hex and crypto are the functions of `Codecs`.
use nova2sonici_osapp.Common.{
  ℕ, ◌+◌, Bool, true, false, not, ◌&&◌, ◌||◌, Option, none, some, List, [], ◌∷◌, ◌++◌, length, all,
  ltb, leb, ◌==◌, if◌then◌else◌,
}
use nova2sonici_osapp.Common.Int.{ℤ, pos, negsuc, eq_ℤ}
use nova2sonici_osapp.Common.Fallible.{Fallible, ok, err, ◌>>=◌, ◌>>◌, reject_if}
use nova2sonici_osapp.Common.Text.{Text, codes, len, eq_text, is_empty}

abbrev pub Bytes : Type 0
Bytes = List ℕ

pub record HostContext : Type 0 where
  pub version : ℤ
  pub audience : Text
  pub tool : Text
  pub payload_hash : Text
  pub idempotency_key : Text
  pub confirmed : Bool
  pub expires_at : ℤ
  pub signature : Text

pub record ToolEnvelope : Type 0 where
  pub payload : Text
  pub context : HostContext

-- `canonical_json` is the strict decoding of one object and its json.Marshal. hex.DecodeString
-- returns the bytes before an error beside it; `.1` is true where there is no error.
pub record Codecs : Type 0 where
  pub canonical_json : Text → Fallible Text
  pub sha256_hex : Text → Text
  pub hmac_sha256 : Bytes → Text → Bytes
  pub hex_encode : Bytes → Text
  pub hex_decode : Text → Bytes × Bool
  pub marshal_context : HostContext → Text
  pub marshal_envelope : ToolEnvelope → Text
  pub strict_envelope : Text → Option ToolEnvelope

pub record EnvelopeCodec : Type 0 where
  pub secret : Bytes
  pub audience : Text

abbrev is_lower : ℕ → Bool
is_lower c = leb b'a' c && leb c b'z'

abbrev is_alias_rest : ℕ → Bool
is_alias_rest c = is_lower c || (leb b'0' c && leb c b'9') || c == b'_'

-- `^[a-z][a-z0-9_]{0,23}$`
unfoldable pub is_alias : Text → Bool
is_alias [] = false
is_alias (c ∷ s) = is_lower c && all is_alias_rest s && leb (length s) 23

unfoldable pub new_envelope_codec : Codecs → Text → Text → Fallible EnvelopeCodec
unfolding is_alias
new_envelope_codec k secret_hex audience =
    let (secret, decoded) = k.hex_decode secret_hex in
    if not decoded || not (length secret == 32) || not (is_alias audience)
    then err (codes "MCP envelope requires a 32-byte hex secret and a valid audience")
    else ok (record { secret = secret; audience = audience })

-- `secret_hex` is the environment's STS_MCP_CONTEXT_SECRET.
unfoldable pub server_envelope : Codecs → Text → Text → Text → Fallible (Option EnvelopeCodec)
unfolding new_envelope_codec
server_envelope k secret_hex mode audience =
    if eq_text mode (codes "meta")
    then ok none
    else if not (eq_text mode (codes "envelope"))
    then err (codes "unsupported MCP context mode")
    else (new_envelope_codec k secret_hex audience >>= λ c. ok (some c))

unfoldable pub canonical_payload : Codecs → Text → Fallible (Text × Text)
canonical_payload k payload = do
  reject_if (ltb 16384 (len payload)) (codes "arguments exceed limit")
  canonical ← k.canonical_json payload
  ok (canonical, k.sha256_hex canonical)

-- The bytes that are hashed: a prefix of the version with a zero byte, and the unsigned context.
abbrev pub signed_text : Codecs → HostContext → Text
signed_text k c = codes "sts-mcp-envelope-v1" ++ 0 ∷ k.marshal_context (record c { signature = [] })

unfoldable pub signature : Codecs → EnvelopeCodec → HostContext → Text
signature k c x = k.hex_encode (k.hmac_sha256 c.secret (signed_text k x))

abbrev pub bad_key : Text → Bool
bad_key key = is_empty key || ltb 256 (len key)

-- The context that Wrap signs at a time in Unix seconds.
unfoldable pub host_context : EnvelopeCodec → ℕ → Text → Text → Text → Bool → HostContext
host_context c now tool hash key confirmed = record {
  version = pos 1;
  audience = c.audience;
  tool = tool;
  payload_hash = hash;
  idempotency_key = key;
  confirmed = confirmed;
  expires_at = pos (now + 60);
  signature = [];
}

unfoldable pub wrap : Codecs → EnvelopeCodec → ℕ → Text → Text → Text → Bool → Fallible Text
unfolding canonical_payload signature host_context
wrap k c now tool payload key confirmed = do
  (canonical, hash) ← canonical_payload k payload
  reject_if (is_empty tool || bad_key key) (codes "invalid host operation")
  let x = host_context c now tool hash key confirmed
  ok (
      k.marshal_envelope
        (record { payload = canonical; context = record x { signature = signature k c x } }))

-- `expires <= now`
abbrev pub expired : ℕ → ℤ → Bool
expired now (pos e) = leb e now
expired now (negsuc e) = true

-- `expires > now+60`
abbrev pub too_late : ℕ → ℤ → Bool
too_late now (pos e) = ltb (now + 60) e
too_late now (negsuc e) = false

abbrev pub deny : Text
deny = codes "invalid host context"

unfoldable pub denies_context : EnvelopeCodec → ℕ → Text → HostContext → Bool
denies_context c now tool x =
    not (eq_ℤ x.version (pos 1))
    || not (eq_text x.audience c.audience)
    || not (eq_text x.tool tool)
    || expired now x.expires_at
    || too_late now x.expires_at
    || bad_key x.idempotency_key

-- hmac.Equal of the signature that came with the signature that the codec makes.
unfoldable pub denies_signature : Codecs → Text → Text → Bool
denies_signature k given made =
    let (signature, decoded) = k.hex_decode given in
    let (expected, _) = k.hex_decode made in not decoded || not (eq_text signature expected)

unfoldable pub unwrap : Codecs → EnvelopeCodec → ℕ → Text → Text → Fallible (Text × Text × Bool)
unfolding denies_context canonical_payload signature denies_signature
unwrap k c now tool data_text =
    if ltb 32768 (len data_text) then err deny else elim (k.strict_envelope data_text) [
      | none ↦ err deny
      | some e ↦
          let x = e.context in
          if denies_context c now tool x then err deny else elim (canonical_payload k e.payload) [
            | err _ ↦ err deny
            | ok (canonical, hash) ↦
                if not (eq_text hash x.payload_hash)
                then err deny
                else if denies_signature k x.signature (signature k c x)
                then err deny
                else ok (canonical, x.idempotency_key, x.confirmed)
          ]
    ]
