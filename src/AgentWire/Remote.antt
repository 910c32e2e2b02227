-- ===== src/AgentWire/Remote.antt =====
-- packages/go/agentwire/remote.go, remoteSession.Send: what the gateway's end of an agent session does
-- with a command before it writes it to the connection.
use nova2sonici_osapp.Common.{none, some, []}
use nova2sonici_osapp.Common.Fallible.{Fallible}
use nova2sonici_osapp.Common.Text.{Text}
use nova2sonici_osapp.AgentWire.Types.{Protocol, session_command, Command, Message}
use nova2sonici_osapp.AgentWire.Protocol.{validate_command}

abbrev pub command_message : Protocol → Command → Message
command_message p c = record {
  protocol = p;
  kind = session_command;
  agent_id = [];
  start = none;
  command = some c;
  event = none;
}

-- An error is what Send returns without writing anything.
unfoldable pub send_checks : Protocol → Text → Command → Fallible (Unit {0})
send_checks p session_id c = validate_command session_id (command_message p c)
