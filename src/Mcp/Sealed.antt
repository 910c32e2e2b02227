-- ===== src/Mcp/Sealed.antt =====
-- packages/go/mcpwire/envelope.go: what Unwrap lets through is what a holder of the secret signed.
use nova2sonici_osapp.Common.{
  ℕ, ◌+◌, ◌≤◌, ◌<◌, ◌≡◌, refl, inl, inr, Bool, true, false, some, arith, Option-cases,
}
use nova2sonici_osapp.Common.Int.{ℤ, pos, negsuc, eq_ℤ-sound}
use nova2sonici_osapp.Common.Fallible.{ok, Fallible-cases}
use nova2sonici_osapp.Common.Text.{Text, eq_text_iff}
use nova2sonici_osapp.Mcp.Envelope.{
  Bytes, HostContext, ToolEnvelope, Codecs, EnvelopeCodec, canonical_payload, signed_text,
  signature, denies_context, denies_signature, unwrap, expired, too_late,
}

-- Hex text is read back.
abbrev pub Hex : Codecs → Type 0
Hex k = (b : Bytes) → k.hex_decode (k.hex_encode b) ≡ (b, true)

-- The envelope that came is fresh, for this audience and tool, and its signature is the keyed hash
-- of its context, which names the hash of the payload that is returned.
pub record Authentic (k : Codecs) (c : EnvelopeCodec) (now : ℕ)
    (tool data_text canonical key : Text) (confirmed : Bool) (e : ToolEnvelope) (expires : ℕ)
    : Type 0 where
  pub received : k.strict_envelope data_text ≡ some e
  pub versioned : e.context.version ≡ pos 1
  pub audience : e.context.audience ≡ c.audience
  pub for_tool : e.context.tool ≡ tool
  pub keyed : e.context.idempotency_key ≡ key
  pub consent : e.context.confirmed ≡ confirmed
  pub until : e.context.expires_at ≡ pos expires
  pub fresh : (now < expires) × (expires ≤ now + 60)
  pub payload : k.canonical_json e.payload ≡ ok canonical
  pub hashed : e.context.payload_hash ≡ k.sha256_hex canonical
  pub signed :
      k.hex_decode e.context.signature ≡ (k.hmac_sha256 c.secret (signed_text k e.context), true)

pub expires-pos :
    (now : ℕ) (z : ℤ)
    → expired now z ≡ false
    → too_late now z ≡ false
    → (e : ℕ) × (z ≡ pos e) × (now < e) × (e ≤ now + 60)
expires-pos now (pos e) h l = (e, refl, ground arith, ground arith)
expires-pos now (negsuc e) h l = cc

signed-by :
    (k : Codecs) (c : EnvelopeCodec) (x : HostContext)
    → Hex k
    → denies_signature k x.signature (signature k c x) ≡ false
    → k.hex_decode x.signature ≡ (k.hmac_sha256 c.secret (signed_text k x), true)
unfolding denies_signature signature
signed-by k c x d h =
    let made = k.hmac_sha256 c.secret (signed_text k x) in
    let given = (k.hex_decode x.signature).0 in
    let round = d made in
    let valid : (k.hex_decode x.signature).1 ≡ true = ground (arith, round) in
    let same : given ≡ made = ground (arith, round, eq_text_iff given made) in
    (ground (arith, valid, same))

pub canonical_payload-hash :
    (k : Codecs) (p c hash : Text)
    → canonical_payload k p ≡ ok (c, hash)
    → (k.canonical_json p ≡ ok c) × (hash ≡ k.sha256_hex c)
unfolding canonical_payload
canonical_payload-hash k p c hash done = elim (Fallible-cases (k.canonical_json p)) [
  | inl (m, bad) ↦ absurd (ground arith)
  | inr (q, good) ↦ (ground arith, ground arith)
]

-- Where hex text is read back, whatever Unwrap accepts is authentic: an envelope of version 1 for
-- this audience and tool that expires within the next minute, whose signature is the keyed hash of
-- its context, which holds the returned key and consent and the hash of the returned payload.
pub unwrap-Authentic :
    (k : Codecs) (c : EnvelopeCodec) (now : ℕ) (tool data_text canonical key : Text)
    (confirmed : Bool)
    → Hex k
    → unwrap k c now tool data_text ≡ ok (canonical, key, confirmed)
    → (e : ToolEnvelope) × (expires : ℕ) × Authentic k c now tool data_text canonical key confirmed
        e expires
unfolding unwrap denies_context
unwrap-Authentic k c now tool data_text canonical key confirmed d done =
    elim (Option-cases (k.strict_envelope data_text)) [
      | inl bad ↦ absurd (ground arith)
      | inr (e, received) ↦ elim (Fallible-cases (canonical_payload k e.payload)) [
        | inl (m, bad) ↦ absurd (ground arith)
        | inr ((p, hash), read) ↦
            let x = e.context in
            let signed : denies_signature k x.signature (signature k c x) ≡ false = ground arith in
            let (until, same, late, soon) =
              expires-pos now x.expires_at (ground arith) (ground arith) in
            let (parsed, hashed) = canonical_payload-hash k e.payload p hash read in
            let gives : p ≡ canonical = ground arith in
            (
              e,
              until,
              record {
                received = received;
                versioned = eq_ℤ-sound x.version (pos 1) (ground arith);
                audience = ground (arith, eq_text_iff x.audience c.audience);
                for_tool = ground (arith, eq_text_iff x.tool tool);
                keyed = ground arith;
                consent = ground arith;
                until = same;
                fresh = (late, soon);
                payload = rw (← gives) parsed;
                hashed = ground (arith, eq_text_iff hash x.payload_hash, hashed, gives);
                signed = signed-by k c x d signed;
              },
            )
      ]
    ]
