-- ===== src/Lib.antt =====
-- A verification of subportal, which forwards requests of a remote machine (open a link or a file, show a
-- notification, ask for a confirmation) to the devices of its user.
--
-- Local tools send a request over a Unix socket to the agent (crates/subportal). The agent's hub knows the
-- enrolled devices, a registry in a file, and the connected ones, a map in memory. A device connects with
-- a hello on a control channel, which carries a one-time token when it enrolls. The router picks the
-- devices of a request: the best reachable one, the first one that decides, or all of them.
--
-- - Prelude: shared names. Result, lists, string orders and sorting, association lists for hash maps, and
--   decimal texts.
-- - Protocol (crates/subportal-lib/src/protocol.rs and consts.rs): requests, responses and errors. Wire has
--   to_wire and from_wire, Codec the JSON form of requests, Frame read_message and write_message.
-- - Control (crates/subportal-iroh/src/control.rs): the messages of the control channel. Codec has their JSON
--   forms, Stream read_control and write_control.
-- - Peers (crates/subportal-iroh/src/peers.rs): Registry has what ClientRegistry and ServerRegistry share,
--   Clients and Servers have their operations, Token has PendingToken.
-- - Ticket (crates/subportal-iroh/src/ticket.rs): the enrollment ticket; Compact has its compact form.
-- - Router (crates/subportal/src/router.rs): strategy_for, rank, fan_out, failover_decision, race_decision.
-- - Hub (crates/subportal/src/hub.rs): the hub and its operations; Send has send_to_connection.
-- - Agent (crates/subportal/src/agent.rs): Handshake has handle_iroh_connection, with enroll_client of
--   crates/subportal/src/enrollment.rs, Requests has ranked_connections and handle_unix_request, Socket the
--   requests of the Unix socket, Run the start of the agent.
-- - Local (crates/subportal-lib/src/client.rs and server.rs): Client::call and Server::accept; Socket has the
--   socket file with Server::bind.
-- - Android (crates/subportal-android-core/src/lib.rs): the requests, the enrollment and the servers of the
--   Android client; Runtime has its runtime thread, and Connection the loop
--   of a connection.
-- - Desktop (crates/subportal-desktop/src): Handler and Decision have the requests of the desktop client
--   (handler.rs, dismiss.rs and await_decision), Portal the calls of portal.rs, Session a connection, Run
--   the daemon with its reload (main.rs), Enrollment the commands enroll and forget (enroll.rs and main.rs),
--   Focus the focus updates (focus.rs).
-- - Keypair (crates/subportal-iroh/src/keypair.rs): the file of the secret key.
-- - Command (crates/subportal/src/main.rs and enrollment.rs, crates/xdg-open, crates/notify-send): the
--   command-line tools, with their exit codes and lines.
--
-- How the program is represented. Each section that holds the hub's lock is one function on the hub, and
-- the runs of the agent are the sequences of such sections (Hub.Invariant.Step).
-- Agent.Steps is about the sections that the handlers of Agent go through. A hash map is an
-- association list, the order of which is that of its iteration, so a statement about every list is one
-- about every order. Times are numbers of ticks. The clock, random texts, and how a read, a write or a
-- send ends are inputs. JSON values are the interface Protocol.Json.Json, and the file format of a registry is
-- Peers.Registry.FileFormat: both state what serde_json documents, and so does Ticket.Crates for hex, base45,
-- UTF-8 and socket addresses. Protocol.SampleJson, Peers.SampleFormat and Ticket.SampleCrates are concrete
-- instances. The notification counter wraps at 2^64; a token's time to live goes through a cast to a
-- signed number. All loops are structural, so no fuel is needed, with these exceptions: the digits of a
-- decimal text run on a number of steps above the number itself, the loop of notify-send's parse_args on one
-- more round than there are arguments, since each round takes one at least, and the reader of Control.Stream
-- on one more round than there are messages.
--
-- Not modelled: sockets, QUIC streams and tasks as such, the delays between two
-- connections, the wrappers of transport.rs around read_message and write_message, logging, clap, and the
-- bindings of the Android client. The D-Bus calls of the desktop client are values, and what the bus does
-- with them is an input.
pub mod Keypair
pub mod Prelude
pub mod Protocol
pub mod Control
pub mod Peers
pub mod Ticket
pub mod Router
pub mod Hub
pub mod Agent
pub mod Local
pub mod Android
pub mod Desktop
pub mod Command
