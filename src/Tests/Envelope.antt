-- ===== src/Tests/Envelope.antt =====
-- Concrete codecs for the envelopes of packages/go/mcpwire, and envelopes that they carry.
use nova2sonici_osapp.Common.{
  ℕ, zero, suc, ◌+◌, inl, inr, ◌∙◌, Bool-cases, if◌then◌else◌, ◌≡◌, refl, ap, Bool, true, false,
  some, none, Option, [], ◌∷◌, ◌++◌, arith, length, take, drop,
}
use nova2sonici_osapp.Common.Int.{ℤ, pos, negsuc}
use nova2sonici_osapp.Common.Fallible.{ok}
use nova2sonici_osapp.Common.Text.{Text, codes, eq_text, is_utf8}
use nova2sonici_osapp.Mcp.Envelope.{
  Bytes, HostContext, ToolEnvelope, Codecs, EnvelopeCodec, canonical_payload, signature,
  signed_text, host_context, wrap, denies_signature, unwrap, denies_context,
}
use nova2sonici_osapp.Mcp.RoundTrip.{Documented, unwrap-wrap}
use nova2sonici_osapp.Mcp.Sealed
use nova2sonici_osapp.Mcp.Sealed.{Hex, unwrap-Authentic}
use nova2sonici_osapp.Mcp.EnvelopeV2.{
  CodecsV2, EnvelopeV2, HostContextV2, Tree, scalar, valid, canonical_v2, sign_v2, signed_text_v2,
  denies_context_v2, unwrap_v2,
}
use nova2sonici_osapp.Mcp.SealedV2
use nova2sonici_osapp.Mcp.SealedV2.{Collision, unwrap_v2-Authentic, signatures-Collision}

-- A text with its length before it.
unfoldable put : Text → Text → Text
put s rest = length s ∷ (s ++ rest)

take-put : (s rest : Text) → take (length s) (s ++ rest) ≡ s
take-put [] rest = refl
take-put (c ∷ s) rest = ap (λ t. c ∷ t) (take-put s rest)

drop-put : (s rest : Text) → drop (length s) (s ++ rest) ≡ rest
drop-put [] rest = refl
drop-put (c ∷ s) rest = drop-put s rest

unfoldable get {ℓ} : {A : Type ℓ} → Text → (Text → Text → Option A) → Option A
get [] k = none
get (n ∷ s) k = k (take n s) (drop n s)

get-put {ℓ} :
    {A : Type ℓ} (s rest : Text) (k : Text → Text → Option A) → get (put s rest) k ≡ k s rest
unfolding get put
get-put s rest k = rw (take-put s rest, drop-put s rest) refl

unfoldable put_int : ℤ → Text → Text
put_int (pos n) rest = 0 ∷ n ∷ rest
put_int (negsuc n) rest = 1 ∷ n ∷ rest

unfoldable get_int {ℓ} : {A : Type ℓ} → Text → (ℤ → Text → Option A) → Option A
get_int (zero ∷ n ∷ rest) k = k (pos n) rest
get_int (suc m ∷ n ∷ rest) k = k (negsuc n) rest
get_int _ k = none

get_int-put {ℓ} :
    {A : Type ℓ} (z : ℤ) (rest : Text) (k : ℤ → Text → Option A)
    → get_int (put_int z rest) k ≡ k z rest
unfolding get_int put_int
get_int-put (pos n) rest k = refl
get_int-put (negsuc n) rest k = refl

unfoldable put_flag : Bool → Text → Text
put_flag true rest = 1 ∷ rest
put_flag false rest = 0 ∷ rest

unfoldable get_flag {ℓ} : {A : Type ℓ} → Text → (Bool → Text → Option A) → Option A
get_flag (zero ∷ rest) k = k false rest
get_flag (suc m ∷ rest) k = k true rest
get_flag [] k = none

get_flag-put {ℓ} :
    {A : Type ℓ} (b : Bool) (rest : Text) (k : Bool → Text → Option A)
    → get_flag (put_flag b rest) k ≡ k b rest
unfolding get_flag put_flag
get_flag-put true rest k = refl
get_flag-put false rest k = refl

unfoldable put_context : HostContext → Text → Text
unfolding put put_int put_flag
put_context x rest = put_int x.version (
    put x.audience (
      put x.tool (
        put x.payload_hash (
          put x.idempotency_key
            (put_flag x.confirmed (put_int x.expires_at (put x.signature rest)))))))

unfoldable put_envelope : ToolEnvelope → Text
unfolding put_context
put_envelope e = put e.payload (put_context e.context [])

unfoldable get_envelope : Text → Option ToolEnvelope
unfolding get get_int get_flag
get_envelope s = get s λ payload s. get_int s λ version s. get s λ audience s. get s λ tool s.
    get s λ hash s. get s λ key s. get_flag s λ confirmed s. get_int s λ expires s.
      get s λ signature s. some (record {
        payload = payload;
        context = record {
          version = version;
          audience = audience;
          tool = tool;
          payload_hash = hash;
          idempotency_key = key;
          confirmed = confirmed;
          expires_at = expires;
          signature = signature;
        };
      })

get-put_envelope : (e : ToolEnvelope) → get_envelope (put_envelope e) ≡ some e
unfolding get_envelope put_envelope put_context
get-put_envelope e = simp (get-put, get_int-put, get_flag-put)

-- A number is written as so many ones before a zero.
unfoldable put_ones : ℕ → Text → Text
put_ones zero rest = 0 ∷ rest
put_ones (suc n) rest = 1 ∷ put_ones n rest

unfoldable put_bytes : Bytes → Text
unfolding put_ones
put_bytes [] = []
put_bytes (n ∷ b) = put_ones n (put_bytes b)

unfoldable get_bytes : ℕ → Text → Bytes
get_bytes m [] = []
get_bytes m (zero ∷ s) = m ∷ get_bytes 0 s
get_bytes m (suc c ∷ s) = get_bytes (suc m) s

get_bytes-put_ones :
    (m n : ℕ) (rest : Text) → get_bytes m (put_ones n rest) ≡ (m + n) ∷ get_bytes 0 rest
unfolding get_bytes put_ones
get_bytes-put_ones m zero rest = ap (λ k. k ∷ get_bytes 0 rest) (omega arith)
get_bytes-put_ones m (suc n) rest =
    get_bytes-put_ones (suc m) n rest ∙ ap (λ k. k ∷ get_bytes 0 rest) (omega arith)

get-put_bytes : (b : Bytes) → get_bytes 0 (put_bytes b) ≡ b
unfolding get_bytes put_bytes
get-put_bytes [] = refl
get-put_bytes (n ∷ b) =
    get_bytes-put_ones 0 n (put_bytes b)
    ∙ ap (λ k. k ∷ get_bytes 0 (put_bytes b)) (omega arith)
    ∙ ap (λ r. n ∷ r) (get-put_bytes b)

put_ones-utf8 : (n : ℕ) (rest : Text) → is_utf8 rest ≡ true → is_utf8 (put_ones n rest) ≡ true
unfolding put_ones
put_ones-utf8 zero rest h = h
put_ones-utf8 (suc n) rest h = put_ones-utf8 n rest h

put_bytes-utf8 : (b : Bytes) → is_utf8 (put_bytes b) ≡ true
unfolding put_bytes
put_bytes-utf8 [] = refl
put_bytes-utf8 (n ∷ b) = put_ones-utf8 n (put_bytes b) (put_bytes-utf8 b)

-- Canonical JSON is the payload, its hash the payload again where that is valid UTF-8, and the keyed
-- hash the length of the text before the key.
unfoldable codecs : Codecs
codecs = record {
  canonical_json = ok;
  sha256_hex = λ t. if is_utf8 t then t else [];
  hmac_sha256 = λ k t. length t ∷ k;
  hex_encode = put_bytes;
  hex_decode = λ t. (get_bytes 0 t, true);
  marshal_context = λ x. put_context x [];
  marshal_envelope = put_envelope;
  strict_envelope = get_envelope;
}

codecs-Hex : Hex codecs
unfolding codecs
codecs-Hex b = ap (λ r. (r, true)) (get-put_bytes b)

codecs-Documented : Documented codecs
unfolding codecs
codecs-Documented = record {
  hex = codecs-Hex;
  hex_text = put_bytes-utf8;
  hash_text = λ t. elim (Bool-cases (is_utf8 t)) [ inl h ↦ rw h h | inr h ↦ rw h refl ];
  json = λ p c x canonical short writable. get-put_envelope (record { payload = c; context = x });
  canonical = λ p c h. refl;
}

abbrev codec : EnvelopeCodec
codec = record { secret = 7 ∷ []; audience = codes "agenda" }

abbrev signed_context : HostContext
signed_context = host_context codec 100 (codes "t") (codes "{}") (codes "k") true

abbrev sent : Text
sent = put_envelope (record {
  payload = codes "{}";
  context = record signed_context { signature = signature codecs codec signed_context };
})

unwrap-wrap_example : unwrap codecs codec 130 (codes "t") sent ≡ ok (codes "{}", codes "k", true)
unfolding codecs canonical_payload signature host_context wrap put_envelope put_context put put_int
    put_flag put_bytes put_ones
unwrap-wrap_example =
    unwrap-wrap codecs codec 100 130 (codes "t") (codes "{}") (codes "k") (codes "{}") sent true
      codecs-Documented refl refl refl refl (omega arith) (omega arith) (omega arith) (omega arith)
      (omega arith) refl

unwrap-Authentic_example :
    (e : ToolEnvelope) × (expires : ℕ) × Sealed.Authentic codecs codec 130
      (codes "t")
      sent
      (codes "{}")
      (codes "k")
      true
      e
      expires
unfolding codecs
unwrap-Authentic_example =
    unwrap-Authentic codecs codec 130 (codes "t") sent (codes "{}") (codes "k") true codecs-Hex
      unwrap-wrap_example

abbrev identified : HostContextV2
identified = record {
  version = pos 2;
  audience = codes "agenda";
  tool = codes "t";
  payload_hash = codes "{}";
  idempotency_key = codes "k";
  confirmed = true;
  expires_at = pos 160;
  identity = record {
    subject = codes "s";
    client_code = [];
    session_ref = [];
    device_id = codes "d";
    scopes = some [];
  };
  signature = [];
}

-- Version 2 with one envelope, signed by the same codec.
abbrev unsigned_codecs : CodecsV2
unsigned_codecs = record {
  base = codecs;
  decode_any = λ t. some scalar;
  marshal_context = λ x. x.tool;
  marshal_envelope = λ e. e.payload;
  strict_envelope = λ t. none;
}

abbrev accepted : EnvelopeV2
accepted = record {
  payload = codes "{}";
  context = record identified { signature = sign_v2 unsigned_codecs codec identified };
}

abbrev codecs_v2 : CodecsV2
codecs_v2 = record unsigned_codecs { strict_envelope = λ t. some accepted }

unwrap_v2-Authentic_example :
    (expires : ℕ) × (canonical : Text) × (tree : Tree) × SealedV2.Authentic codecs_v2 codec 130
      (codes "t")
      []
      accepted
      expires
      canonical
      tree
unfolding codecs denies_context_v2 canonical_v2 canonical_payload sign_v2 denies_signature unwrap_v2
    eq_text valid get_bytes put_bytes put_ones
unwrap_v2-Authentic_example =
    unwrap_v2-Authentic codecs_v2 codec 130 (codes "t") [] accepted codecs-Hex refl

-- A keyed hash that forgets the text.
abbrev weak : Codecs
weak = record codecs { hmac_sha256 = λ k t. k }

abbrev weak_context : HostContext
weak_context = record signed_context { signature = signature weak codec signed_context }

abbrev weak_envelope : ToolEnvelope
weak_envelope = record { payload = codes "{}"; context = weak_context }

abbrev weak_accepted : EnvelopeV2
weak_accepted = record {
  payload = codes "{}";
  context = record identified { signature = signature weak codec signed_context };
}

abbrev weak_v2 : CodecsV2
weak_v2 = record codecs_v2 { base = weak; strict_envelope = λ t. some weak_accepted }

signatures-Collision_example :
    Collision weak codec.secret
      (signed_text weak weak_context)
      (signed_text_v2 weak_v2 weak_accepted.context)
unfolding codecs denies_context denies_context_v2 canonical_v2 canonical_payload sign_v2 signature
    host_context denies_signature unwrap unwrap_v2 eq_text valid get_bytes put_bytes put_ones
    put_envelope put_context put put_int put_flag get_envelope get get_int get_flag
signatures-Collision_example =
    signatures-Collision weak_v2 codec 130 130 (codes "t") (codes "t") (put_envelope weak_envelope)
      [] (codes "{}") (codes "k") true weak_envelope weak_accepted codecs-Hex
      (get-put_envelope weak_envelope) refl refl refl
