-- ===== src/AgentWire/Meeting.antt =====
-- packages/go/agentwire/remote.go: the two ends of a connection understand each other.
use nova2sonici_osapp.Common.{ℕ, ◌≡◌, refl, sym, ◌∙◌, true, false, some, arith}
use nova2sonici_osapp.Common.Assoc.{Map, lookup}
use nova2sonici_osapp.Common.Fallible.{ok}
use nova2sonici_osapp.Common.Text.{Text, eq_text_iff, eq_text_refl}
use nova2sonici_osapp.AgentWire.Types.{Protocol, v1, v2, Start, Message}
use nova2sonici_osapp.AgentWire.Protocol.{
  Decoder, decode_protocol, validate_open, validate_accepted, same_protocol,
}
use nova2sonici_osapp.AgentWire.Endpoint.{
  Host, Endpoint, proof, credential, protocol_name, is_known,
}
use nova2sonici_osapp.AgentWire.Handshake.{
  connected, ServerConfig, upgrades, open_request, open_message, accepts_reply, finish_open,
  open_connection, open_remote, admit, session_path, bearer, bad_nonce, full, read_open,
  accepted_message,
}

-- A gateway's endpoint and an agent's server that are set up for each other.
pub record Agrees (e : Endpoint) (c : ServerConfig) : Type 0 where
  pub protocol : e.protocol ≡ c.protocol
  pub agent : e.agent_id ≡ c.agent_id
  pub token : e.token ≡ c.token

-- Text that is read as the message it was written from.
abbrev pub Carries : Decoder → Protocol → Text → Message → Type 0
Carries d p data_text m = decode_protocol d data_text p ≡ ok m

module _ (h : Host) (d : Decoder) (e : Endpoint) (c : ServerConfig) (agrees : Agrees e c) where
  -- The server upgrades the gateway's request while it has a slot, with the proof that the gateway
  -- asks for.
  admit-open_request :
      (in_use : ℕ) (path nonce : Text)
      → path ≡ session_path c.protocol
      → bad_nonce h nonce ≡ false
      → full c in_use ≡ false
      → admit h c in_use (open_request h e path nonce)
        ≡ upgrades (proof h e.protocol e.token e.agent_id nonce)
  unfolding admit open_request
  admit-open_request in_use path nonce same good room =
      rw (agrees.protocol, agrees.agent, agrees.token, same)
        (ground (
          arith,
          eq_text_refl (session_path c.protocol),
          eq_text_refl (bearer (credential h c.protocol c.token c.agent_id)),
          eq_text_refl (protocol_name c.protocol),
        ))

  same_protocol-known : (p : Protocol) → is_known p ≡ true → same_protocol p p ≡ true
  same_protocol-known v1 known = refl
  same_protocol-known v2 known = refl
  same_protocol-known _ known = cc

  -- The server reads from the gateway's first message the session that it asks for.
  read_open-open_message :
      (start : Start) (data_text : Text)
      → is_known c.protocol ≡ true
      → start.agent_id ≡ e.agent_id
      → validate_open (open_message e.protocol start) ≡ ok tt
      → Carries d c.protocol data_text (open_message e.protocol start)
      → read_open d c (some (some data_text))
        ≡ ok (record start { protocol = protocol_name c.protocol })
  unfolding read_open open_message
  read_open-open_message start data_text known named valid carried =
      let same = same_protocol-known c.protocol known in
      let agent : start.agent_id ≡ c.agent_id = named ∙ agrees.agent in
      let p : e.protocol ≡ c.protocol = agrees.protocol in
      ground (arith, carried, valid, same, p, eq_text_iff start.agent_id c.agent_id)

  -- And the gateway takes the server's acceptance.
  accepts_reply-accepted :
      (start : Start) (data_text : Text)
      → is_known c.protocol ≡ true
      → start.agent_id ≡ e.agent_id
      → Carries d e.protocol data_text (accepted_message c)
      → accepts_reply d e.protocol start.agent_id data_text ≡ true
  unfolding accepts_reply accepted_message validate_accepted
  accepts_reply-accepted start data_text known named carried =
      let same = same_protocol-known c.protocol known in
      let agent : c.agent_id ≡ start.agent_id = sym agrees.agent ∙ sym named in
      let p : e.protocol ≡ c.protocol = agrees.protocol in
      ground (arith, carried, same, p, eq_text_iff c.agent_id start.agent_id)

  -- Where the catalog lists the endpoint that the server is set up for, under a URL with the path of
  -- their protocol, the nonce is one of 32 bytes, the server has a slot, the session is one that
  -- ValidateOpen accepts, and each end reads the message that the other wrote: the server upgrades
  -- the gateway's request and takes its session, and Open returns the session.
  pub handshake :
      (m : Map Endpoint) (in_use : ℕ) (path nonce opening reply : Text) (start : Start)
      → lookup start.agent_id m ≡ some e
      → start.agent_id ≡ e.agent_id
      → is_known c.protocol ≡ true
      → path ≡ session_path c.protocol
      → bad_nonce h nonce ≡ false
      → full c in_use ≡ false
      → validate_open (open_message e.protocol start) ≡ ok tt
      → Carries d c.protocol opening (open_message e.protocol start)
      → Carries d e.protocol reply (accepted_message c)
      → let proved = proof h e.protocol e.token e.agent_id nonce in
        (admit h c in_use (open_request h e path nonce) ≡ upgrades proved)
        × (read_open d c (some (some opening))
            ≡ ok (record start { protocol = protocol_name c.protocol }))
        × (open_remote h d m nonce start (connected proved true (some (some reply)))
            ≡ ok (record { protocol = e.protocol; session_id = start.session_id }))
  unfolding open_remote open_connection finish_open
  handshake m in_use path nonce opening reply start listed named known same good room valid sent
        back =
      let proved = proof h e.protocol e.token e.agent_id nonce in
      let taken = accepts_reply-accepted start reply known named back in
      (
        admit-open_request in_use path nonce same good room,
        read_open-open_message start opening known named valid sent,
        ground (arith, listed, taken, eq_text_refl proved),
      )
