-- ===== src/Mcp/SealedV2.antt =====
-- packages/go/mcpwire/envelope_v2.go: what UnwrapV2 lets through was signed, identity included.
use nova2sonici_osapp.Common.{
  ℕ, ◌+◌, ◌≤◌, ◌<◌, ◌≡◌, ◌≢◌, sym, ap, ◌∙◌, Bool, inl, inr, true, false, some, arith, Option-cases,
}
use nova2sonici_osapp.Common.Int.{pos, eq_ℤ-sound}
use nova2sonici_osapp.Common.Fallible.{ok, Fallible-cases}
use nova2sonici_osapp.Common.Text.{Text, eq_text_iff, is_empty}
use nova2sonici_osapp.Mcp.Envelope.{
  Bytes, Codecs, EnvelopeCodec, HostContext, ToolEnvelope, canonical_payload, denies_signature,
  signed_text, unwrap,
}
use nova2sonici_osapp.Mcp.EnvelopeV2.{
  CodecsV2, EnvelopeV2, HostContextV2, Tree, valid, canonical_v2, sign_v2, signed_text_v2,
  denies_context_v2, unwrap_v2,
}
use nova2sonici_osapp.Mcp.Sealed.{Hex, unwrap-Authentic, expires-pos, canonical_payload-hash}

-- Like version 1; the payload is moreover JSON with integers and ASCII keys only, and the identity
-- under the signature names a subject and a device.
pub record Authentic (k : CodecsV2) (c : EnvelopeCodec) (now : ℕ) (tool data_text : Text)
    (e : EnvelopeV2) (expires : ℕ) (canonical : Text) (tree : Tree) : Type 0 where
  pub received : k.strict_envelope data_text ≡ some e
  pub versioned : e.context.version ≡ pos 2
  pub audience : e.context.audience ≡ c.audience
  pub for_tool : e.context.tool ≡ tool
  pub until : e.context.expires_at ≡ pos expires
  pub fresh : (now < expires) × (expires ≤ now + 60)
  pub subject : is_empty e.context.identity.subject ≡ false
  pub device : is_empty e.context.identity.device_id ≡ false
  pub read : k.decode_any e.payload ≡ some tree
  pub restricted : valid tree ≡ true
  pub payload : k.base.canonical_json e.payload ≡ ok canonical
  pub hashed : e.context.payload_hash ≡ k.base.sha256_hex canonical
  pub signed :
      k.base.hex_decode e.context.signature
      ≡ (k.base.hmac_sha256 c.secret (signed_text_v2 k e.context), true)

signed-by :
    (k : CodecsV2) (c : EnvelopeCodec) (x : HostContextV2)
    → Hex k.base
    → denies_signature k.base x.signature (sign_v2 k c x) ≡ false
    → k.base.hex_decode x.signature ≡ (k.base.hmac_sha256 c.secret (signed_text_v2 k x), true)
unfolding denies_signature sign_v2
signed-by k c x hex h =
    let made = k.base.hmac_sha256 c.secret (signed_text_v2 k x) in
    let given = (k.base.hex_decode x.signature).0 in
    let valid : (k.base.hex_decode x.signature).1 ≡ true = ground (arith, hex made) in
    let same : given ≡ made = ground (arith, hex made, eq_text_iff given made) in
    ground (arith, valid, same)

canonical_v2-parts :
    (k : CodecsV2) (p c hash : Text)
    → canonical_v2 k p ≡ ok (c, hash)
    → (t : Tree) × (k.decode_any p ≡ some t)
      × (valid t ≡ true)
      × (canonical_payload k.base p ≡ ok (c, hash))
unfolding canonical_v2
canonical_v2-parts k p c hash done = elim (Option-cases (k.decode_any p)) [
  | inl bad ↦ absurd (ground arith)
  | inr (t, good) ↦ (t, good, ground arith, ground arith)
]

-- Where hex text is read back, whatever UnwrapV2 accepts is authentic: an envelope of version 2 for
-- this audience and tool that expires within the next minute, whose signature is the keyed hash of
-- its context, which names a subject, a device and the hash of the payload, itself JSON with
-- integers and ASCII keys only.
pub unwrap_v2-Authentic :
    (k : CodecsV2) (c : EnvelopeCodec) (now : ℕ) (tool data_text : Text) (e : EnvelopeV2)
    → Hex k.base
    → unwrap_v2 k c now tool data_text ≡ ok e
    → (expires : ℕ) × (canonical : Text) × (tree : Tree) × Authentic k c now tool data_text e
        expires canonical tree
unfolding unwrap_v2 denies_context_v2
unwrap_v2-Authentic k c now tool data_text e' hex done =
    elim (Option-cases (k.strict_envelope data_text)) [
      | inl bad ↦ absurd (ground arith)
      | inr (e, received) ↦ elim (Fallible-cases (canonical_v2 k e.payload)) [
        | inl (m, bad) ↦ absurd (ground arith)
        | inr ((p, hash), read) ↦
            let x = e.context in
            let gives : e' ≡ e = ground arith in
            let signed : denies_signature k.base x.signature (sign_v2 k c x) ≡ false =
              ground arith in
            let (until, same, late, soon) =
              expires-pos now x.expires_at (ground arith) (ground arith) in
            let (tree, decoded, restricted, canonical) =
              canonical_v2-parts k e.payload p hash read in
            let (parsed, hashed) = canonical_payload-hash k.base e.payload p hash canonical in
            rw gives (
              until,
              p,
              tree,
              record {
                received = received;
                versioned = eq_ℤ-sound x.version (pos 2) (ground arith);
                audience = ground (arith, eq_text_iff x.audience c.audience);
                for_tool = ground (arith, eq_text_iff x.tool tool);
                until = same;
                fresh = (late, soon);
                subject = ground arith;
                device = ground arith;
                read = decoded;
                restricted = restricted;
                payload = parsed;
                hashed = ground (arith, eq_text_iff hash x.payload_hash, hashed);
                signed = signed-by k c x hex signed;
              },
            )
      ]
    ]

signed_text_v2-apart :
    (k : CodecsV2) (x : HostContext) (y : HostContextV2) → signed_text k.base x ≢ signed_text_v2 k y
signed_text_v2-apart k x y = λ h. ground arith

-- Two texts that the keyed hash does not tell apart.
pub record Collision (k : Codecs) (secret : Bytes) (s t : Text) : Type 0 where
  pub different : s ≢ t
  pub same_hash : k.hmac_sha256 secret s ≡ k.hmac_sha256 secret t

-- Where hex text is read back and one signature stands in an envelope that Unwrap accepts and in one
-- that UnwrapV2 accepts, with the same secret, then the keyed hash has a collision: the two texts that
-- were signed are different and have the same hash. So without one a signature made for one version is
-- not accepted for the other.
pub signatures-Collision :
    (k : CodecsV2) (c : EnvelopeCodec) (now now' : ℕ)
    (tool tool' data_text data_text' canonical key : Text) (confirmed : Bool) (e : ToolEnvelope)
    (e' : EnvelopeV2)
    → Hex k.base
    → k.base.strict_envelope data_text ≡ some e
    → unwrap k.base c now tool data_text ≡ ok (canonical, key, confirmed)
    → unwrap_v2 k c now' tool' data_text' ≡ ok e'
    → e.context.signature ≡ e'.context.signature
    → Collision k.base c.secret (signed_text k.base e.context) (signed_text_v2 k e'.context)
signatures-Collision k c now now' tool tool' data_text data_text' canonical key confirmed e e' hex
      received first second same =
    let (e₁, _, a) =
      unwrap-Authentic k.base c now tool data_text canonical key confirmed hex first in
    let (_, _, _, a') = unwrap_v2-Authentic k c now' tool' data_text' e' hex second in
    let here : e₁ ≡ e = ground (arith, a.received, received) in
    let signed : k.base.hex_decode e.context.signature
        ≡ (k.base.hmac_sha256 c.secret (signed_text k.base e.context), true) =
      rw (← here) a.signed in
    let both : k.base.hex_decode e.context.signature
        ≡ (k.base.hmac_sha256 c.secret (signed_text_v2 k e'.context), true) =
      rw same a'.signed in
    record {
      different = signed_text_v2-apart k e.context e'.context;
      same_hash = ap (λ r. r.0) (sym signed ∙ both);
    }
