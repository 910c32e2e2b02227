-- ===== src/Mcp/RoundTrip.antt =====
-- packages/go/mcpwire/envelope.go: Unwrap gives back what Wrap was given, for a minute.
use nova2sonici_osapp.Common.{ℕ, ◌+◌, ◌^◌, ◌≤◌, ◌<◌, ◌≡◌, refl, Bool, true, false, some, arith}
use nova2sonici_osapp.Common.Int.{pos}
use nova2sonici_osapp.Common.Fallible.{ok}
use nova2sonici_osapp.Common.Text.{Text, is_utf8, len, eq_text_refl}
use nova2sonici_osapp.Mcp.Envelope.{
  Bytes, HostContext, ToolEnvelope, Codecs, EnvelopeCodec, canonical_payload, signature,
  host_context, wrap, denies_context, denies_signature, unwrap, bad_key, signed_text,
}
use nova2sonici_osapp.Mcp.Sealed.{Hex}

-- The texts of a context are valid UTF-8, and its time, not before 1970, fits an int64.
pub record IsWritable (x : HostContext) : Type 0 where
  pub audience : is_utf8 x.audience ≡ true
  pub tool : is_utf8 x.tool ≡ true
  pub payload_hash : is_utf8 x.payload_hash ≡ true
  pub idempotency_key : is_utf8 x.idempotency_key ≡ true
  pub signature : is_utf8 x.signature ≡ true
  pub version : x.version ≡ pos 1
  pub expires : ℕ
  pub expires_at : x.expires_at ≡ pos expires
  pub in_range : expires < 2 ^ 63

-- What the wire library relies on: hex text is UTF-8 and is read back; an envelope that encoding/json
-- wrote is read back where its payload is what json.Marshal made of an object, of at most 16384 bytes,
-- and its context can be written; and canonical JSON is its own canonical form.
pub record Documented (k : Codecs) : Type 0 where
  pub hex : Hex k
  pub hex_text : (b : Bytes) → is_utf8 (k.hex_encode b) ≡ true
  pub hash_text : (t : Text) → is_utf8 (k.sha256_hex t) ≡ true
  pub json :
      (p c : Text) (x : HostContext)
      → k.canonical_json p ≡ ok c
      → len c ≤ 16384
      → IsWritable x
      → k.strict_envelope (k.marshal_envelope (record { payload = c; context = x }))
        ≡ some (record { payload = c; context = x })
  pub canonical : (p c : Text) → k.canonical_json p ≡ ok c → k.canonical_json c ≡ ok c

abbrev sealed : Codecs → EnvelopeCodec → HostContext → HostContext
sealed k c x = record x { signature = signature k c x }

-- A signature does not depend on the one that the context carries.
accepts-own :
    (k : Codecs) (c : EnvelopeCodec) (x : HostContext)
    → Documented k
    → denies_signature k (signature k c x) (signature k c (sealed k c x)) ≡ false
unfolding denies_signature signature
accepts-own k c x d =
    let made = k.hmac_sha256 c.secret (signed_text k x) in
    ground (arith, d.hex made, eq_text_refl made)

accepts-context :
    (k : Codecs) (c : EnvelopeCodec) (now now' : ℕ) (tool hash key : Text) (confirmed : Bool)
    → bad_key key ≡ false
    → now ≤ now'
    → now' < now + 60
    → denies_context c now' tool (sealed k c (host_context c now tool hash key confirmed)) ≡ false
unfolding denies_context host_context
accepts-context k c now now' tool hash key confirmed good from to =
    ground (arith, eq_text_refl c.audience, eq_text_refl tool)

sealed-IsWritable :
    (k : Codecs) (c : EnvelopeCodec) (now : ℕ) (tool canonical key : Text) (confirmed : Bool)
    → Documented k
    → is_utf8 c.audience ≡ true
    → is_utf8 tool ≡ true
    → is_utf8 key ≡ true
    → now + 60 < 2 ^ 63
    → IsWritable (sealed k c (host_context c now tool (k.sha256_hex canonical) key confirmed))
unfolding host_context signature
sealed-IsWritable k c now tool canonical key confirmed d audience_ok tool_ok key_ok fits = record {
  audience = audience_ok;
  tool = tool_ok;
  payload_hash = d.hash_text canonical;
  idempotency_key = key_ok;
  signature = d.hex_text _;
  version = refl;
  expires = now + 60;
  expires_at = refl;
  in_range = fits;
}

-- Where hex text and the JSON of an envelope are read back as documented, what Wrap makes of an
-- operation, Unwrap turns back into the canonical payload, the key and the consent during the next
-- minute, if the audience, the tool and the key are valid UTF-8, the time fits an int64, and the
-- canonical payload and the envelope keep their limits.
pub unwrap-wrap :
    (k : Codecs) (c : EnvelopeCodec) (now now' : ℕ) (tool payload key canonical data_text : Text)
    (confirmed : Bool)
    → Documented k
    → is_utf8 c.audience ≡ true
    → is_utf8 tool ≡ true
    → is_utf8 key ≡ true
    → k.canonical_json payload ≡ ok canonical
    → len canonical ≤ 16384
    → len data_text ≤ 32768
    → now + 60 < 2 ^ 63
    → now ≤ now'
    → now' < now + 60
    → wrap k c now tool payload key confirmed ≡ ok data_text
    → unwrap k c now' tool data_text ≡ ok (canonical, key, confirmed)
unfolding wrap unwrap canonical_payload
unwrap-wrap k c now now' tool payload key canonical data_text confirmed d audience_ok tool_ok key_ok
      read short fits in_range from to done =
    let hash = k.sha256_hex canonical in
    let x = host_context c now tool hash key confirmed in
    let e : ToolEnvelope = record { payload = canonical; context = sealed k c x } in
    let key_good : bad_key key ≡ false = ground arith in
    let wrote : data_text ≡ k.marshal_envelope e = ground arith in
    let writable =
      sealed-IsWritable k c now tool canonical key confirmed d audience_ok tool_ok key_ok
        in_range in
    let reads : k.strict_envelope data_text ≡ some e =
      rw wrote (d.json payload canonical (sealed k c x) read short writable) in
    ground (
      arith,
      reads,
      d.canonical payload canonical read,
      accepts-own k c x d,
      accepts-context k c now now' tool hash key confirmed key_good from to,
      eq_text_refl hash,
    )
