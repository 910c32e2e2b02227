-- ===== src/Lib.antt =====
-- Verification of the Go packages of a voice assistant: a gateway between clients and agents, the
-- agents' tool permissions and speech mapping, and the services that they call.
--
-- The parts and their files. The gateway (apps/voice-gateway) takes events of the voice contract
-- (packages/go/voicewire) from a client, translates them into commands of the agent-session contract
-- (packages/go/agentwire), and sends an agent's events back. An agent reads a Realtime provider
-- through packages/go/realtime and decides on tool calls through packages/go/actionruntime, over the
-- tool types of packages/go/mcpwire. The agenda and the notes (apps/mcp-agenda, apps/mcp-notes) serve
-- such tools; a host signs its decisions into their arguments by the envelopes of mcpwire.
--   Common: the types and lemmas that all share. Text is a Go string that came through encoding/json,
--     as code points, and `len` counts its bytes; Assoc is a Go map; Fallible is (value, error); Int is
--     an `int` that may be negative.
--   Voice: packages/go/voicewire/event.go. Decode is DecodeClientVersion; Message and Accepted compare
--     it with a type of client messages.
--   AgentWire: packages/go/agentwire/protocol.go, session.go and remote.go. Endpoint is the catalog
--     (ValidateEndpoint, NewRemoteFactory), Handshake is Open at the gateway with NewHandler and the
--     admission of ServeHTTP at the agent, Link is the loops behind them, Remote the checks of Send.
--     Trust and Meeting are about the handshake. Link/Order puts both ends, the connection and the
--     channel of the gateway's end into one system, with a step for each thing that one of them does;
--     Link/Carried says what becomes of an event that encoding/json writes and reads back.
--   Gateway: apps/voice-gateway/internal/adapters/voice. Translate is the two translations of
--     agent_handler.go; Session is its handleVoice behind the upgrade, with one step for each thing that
--     its loops select, and Choice, Sound and Passage are about it; Latency is latencyWindow of server.go,
--     Rank and Recent are about it.
--   Mcp: packages/go/mcpwire/types.go and policy.go; Envelope and EnvelopeV2 are envelope.go and
--     envelope_v2.go, Sealed, SealedV2 and RoundTrip their proofs.
--   Agenda: apps/mcp-agenda. Scheduling is internal/scheduling/model.go, Store and Slots are
--     internal/adapters/sqlite/store.go; Booked, Replay and Bookable hold the proofs.
--   Notes: apps/mcp-notes. Store is internal/notes/model.go and internal/adapters/sqlite/store.go.
--   Router: apps/personal-assistant-agent/internal/adapters/mcpclient/router.go, the MCP servers of an
--     assistant and the routes of their tools.
--   Assistant: apps/personal-assistant-agent/internal/agent, the loop Run of runtime.go. State is what
--     it keeps, with its closures; Inputs what the client sends, Calls the user's words and the tool
--     calls, Loop the step for each thing that is selected. Plain, Started, Moved, Heard and Once
--     relate a run to operations of Actions on its tool session; Timed, Calm, Armed, Answered and
--     Awaited are about the turn timer.
--   Audio: packages/go/audio/wav.go.
--   Actions: packages/go/actionruntime. Discovery is New and key, Planning is Plan, Dialogue is
--     ObserveUser, Confirm, Interrupt, Execute and Complete, Normalize and DateFormat are their helpers.
--     Release and Run hold the proofs, over sequences of operations.
--   Realtime: packages/go/realtime/mapper.go. Mapper is the client's side, Mapping is Map; Run holds the
--     proofs over sequences of operations.
--   Tests: concrete runs.
--
-- How state is modelled. A Go object is a record, and a method returns the new record. A session and a
-- mapper have one owner each, so their methods are made one after another. What one call reads from
-- the clock or from the random source is an argument. A string that the code compares with constants
-- is a data type with a constructor for each constant and one for any other string. A goroutine that
-- waits in a select is a function of what it selects; the outcomes of its writes, dials and calls are
-- the record World of that step, and what it does to the outside is a list of outputs. Where several
-- goroutines share a connection or a channel (AgentWire.Link.Order), they are one system with a step
-- relation. A timer is whether it runs; it may fire in any step.
--
-- What is a parameter. encoding/json, encoding/base64, encoding/hex, SHA-256 and HMAC, regular
-- expressions that come from configuration, the Unicode tables, time.Parse and time zones, and the JSON
-- Schema library are functions in records (Json, Decoder, Base64, Codecs, Host), as are url.Parse and strings.TrimSpace. A theorem that needs
-- more of them than their types says has it as a hypothesis.
--
-- Fuel and bounds. Two loops run on fuel: Slots has a step for each quarter of an hour of its interval,
-- and the reader of WAV files one for each byte; more fuel changes nothing. Each other loop recurs on
-- a list. Counters that the code bounds are natural numbers; the mapper's and the assistant's uint64 sequences
-- wrap.
--
-- What is not modelled. The sockets themselves and their deadlines, HTTP servers, processes, the errors
-- of the database and its migrations, and configuration files; the Realtime stream's decoding, the
-- account agent and the MCP client and server; and all that is not Go. A time in milliseconds, in the
-- source a float64, is a whole number of microseconds here, so a positive time below one microsecond
-- and a negative one are not told from 0.
pub mod Common
pub mod Voice
pub mod Mcp
pub mod Actions
pub mod Agenda
pub mod AgentWire
pub mod Assistant
pub mod Audio
pub mod Gateway
pub mod Notes
pub mod Realtime
pub mod Router
pub mod Tests
