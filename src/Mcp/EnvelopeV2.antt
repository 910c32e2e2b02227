-- ===== src/Mcp/EnvelopeV2.antt =====
-- packages/go/mcpwire/envelope_v2.go: envelopes that also carry an identity.
use nova2sonici_osapp.Common.{
  ℕ, ◌+◌, Bool, true, false, not, ◌&&◌, ◌||◌, Option, none, some, List, [], ◌∷◌, ◌++◌, all, ltb,
  leb, ◌==◌, if◌then◌else◌,
}
use nova2sonici_osapp.Common.Int.{ℤ, pos, eq_ℤ}
use nova2sonici_osapp.Common.Fallible.{Fallible, ok, err, ◌>>=◌, ◌>>◌, reject_if}
use nova2sonici_osapp.Common.Text.{Text, codes, len, eq_text, is_empty}
use nova2sonici_osapp.Mcp.Envelope.{
  Codecs, EnvelopeCodec, canonical_payload, bad_key, expired, too_late, deny, denies_signature,
}

-- `scopes` is none for Go's nil slice.
pub record IdentityContext : Type 0 where
  pub subject : Text
  pub client_code : Text
  pub session_ref : Text
  pub device_id : Text
  pub scopes : Option (List Text)

pub record HostContextV2 : Type 0 where
  pub version : ℤ
  pub audience : Text
  pub tool : Text
  pub payload_hash : Text
  pub idempotency_key : Text
  pub confirmed : Bool
  pub expires_at : ℤ
  pub identity : IdentityContext
  pub signature : Text

pub record EnvelopeV2 : Type 0 where
  pub payload : Text
  pub context : HostContextV2

-- A JSON value, its numbers as they are written.
mutual
  pub data Tree : Type 0 where
    object : Members → Tree
    array : Elements → Tree
    number : Text → Tree
    scalar : Tree

  pub data Members : Type 0 where
    no_members : Members
    member : Text → Tree → Members → Members

  pub data Elements : Type 0 where
    no_elements : Elements
    element : Tree → Elements → Elements

-- The functions of encoding/json that version 2 uses beside those of version 1.
pub record CodecsV2 : Type 0 where
  pub base : Codecs
  pub decode_any : Text → Option Tree
  pub marshal_context : HostContextV2 → Text
  pub marshal_envelope : EnvelopeV2 → Text
  pub strict_envelope : Text → Option EnvelopeV2

abbrev is_digit : ℕ → Bool
is_digit c = leb b'0' c && leb c b'9'

-- `0|[1-9][0-9]*`
unfoldable pub is_natural : Text → Bool
is_natural [] = false
is_natural (c ∷ s) = (c == b'0' && is_empty s) || (leb b'1' c && leb c b'9' && all is_digit s)

-- `^-?(0|[1-9][0-9]*)$`
unfoldable pub is_integer : Text → Bool
unfolding is_natural
is_integer [] = false
is_integer (c ∷ s) = if c == b'-' then is_natural s else is_natural (c ∷ s)

abbrev is_ascii : Text → Bool
is_ascii s = all (λ r. leb r 127) s

unfoldable mutual
  pub valid : Tree → Bool
  valid (object ms) = valid_members ms
  valid (array es) = valid_elements es
  valid (number n) = is_integer n
  valid scalar = true

  pub valid_members : Members → Bool
  valid_members no_members = true
  valid_members (member k c ms) = is_ascii k && valid c && valid_members ms

  pub valid_elements : Elements → Bool
  valid_elements no_elements = true
  valid_elements (element c es) = valid c && valid_elements es

unfoldable pub canonical_v2 : CodecsV2 → Text → Fallible (Text × Text)
unfolding canonical_payload
canonical_v2 k payload = elim (k.decode_any payload) [
  | none ↦ err (codes "invalid payload")
  | some value ↦
      if not (valid value)
      then err (codes "v2 payload requires ASCII keys and integer numbers")
      else canonical_payload k.base payload
]

abbrev pub signed_text_v2 : CodecsV2 → HostContextV2 → Text
signed_text_v2 k x =
    codes "sts-mcp-envelope-v2" ++ 0 ∷ k.marshal_context (record x { signature = [] })

unfoldable pub sign_v2 : CodecsV2 → EnvelopeCodec → HostContextV2 → Text
sign_v2 k c x = k.base.hex_encode (k.base.hmac_sha256 c.secret (signed_text_v2 k x))

-- A nil list of scopes becomes an empty one.
abbrev pub with_scopes : IdentityContext → IdentityContext
with_scopes i = record i { scopes = elim i.scopes [ none ↦ some [] | some l ↦ some l ] }

unfoldable pub host_context_v2 :
    EnvelopeCodec → ℕ → Text → Text → Text → Bool → IdentityContext → HostContextV2
host_context_v2 c now tool hash key confirmed identity = record {
  version = pos 2;
  audience = c.audience;
  tool = tool;
  payload_hash = hash;
  idempotency_key = key;
  confirmed = confirmed;
  expires_at = pos (now + 60);
  identity = with_scopes identity;
  signature = [];
}

unfoldable pub wrap_v2 :
    CodecsV2 → EnvelopeCodec → ℕ → Text → Text → Text → Bool → IdentityContext → Fallible Text
unfolding canonical_v2 sign_v2 host_context_v2
wrap_v2 k c now tool payload key confirmed identity = do
  (canonical, hash) ← canonical_v2 k payload
  reject_if
      (is_empty tool || bad_key key || is_empty identity.subject || is_empty identity.device_id)
      (codes "invalid host operation")
  let x = host_context_v2 c now tool hash key confirmed identity
  ok (
      k.marshal_envelope
        (record { payload = canonical; context = record x { signature = sign_v2 k c x } }))

abbrev no_scopes : IdentityContext → Bool
no_scopes i = elim i.scopes [ none ↦ true | some l ↦ false ]

unfoldable pub denies_context_v2 : EnvelopeCodec → ℕ → Text → HostContextV2 → Bool
denies_context_v2 c now tool x =
    not (eq_ℤ x.version (pos 2))
    || not (eq_text x.audience c.audience)
    || not (eq_text x.tool tool)
    || expired now x.expires_at
    || too_late now x.expires_at
    || bad_key x.idempotency_key
    || is_empty x.identity.subject
    || is_empty x.identity.device_id
    || no_scopes x.identity

unfoldable pub unwrap_v2 : CodecsV2 → EnvelopeCodec → ℕ → Text → Text → Fallible EnvelopeV2
unfolding denies_context_v2 canonical_v2 sign_v2 denies_signature
unwrap_v2 k c now tool data_text =
    if ltb 32768 (len data_text) then err deny else elim (k.strict_envelope data_text) [
      | none ↦ err deny
      | some e ↦
          let x = e.context in
          if denies_context_v2 c now tool x then err deny else elim (canonical_v2 k e.payload) [
            | err _ ↦ err deny
            | ok (_, hash) ↦
                if not (eq_text hash x.payload_hash)
                then err deny
                else if denies_signature k.base x.signature (sign_v2 k c x)
                then err deny
                else ok e
          ]
    ]
