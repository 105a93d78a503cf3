-- ===== src/Lib.antt =====
-- quic-lab: a VPN gateway over QUIC and HTTPS with managed accounts, and its teaching captures.
--
-- A client reaches the gateway over QUIC or, where UDP is blocked, over a WebSocket. A session carries
-- streams, one for each TCP connection or UDP flow that the client opens, and QUIC datagrams. The
-- gateway asks whether a destination is permitted, dials it and relays bytes. The client chooses
-- between the tunnel and the direct way by a routing policy. Accounts, their certificates, their
-- tunnel addresses for the AWG worker and their live sessions are kept by the admin store, which the
-- TLS configuration asks on every connection. An administrator may capture the packets of a listener
-- with the TLS secrets of its sessions.
--
-- Files and sources:
--   Common/      tests on numbers, lists, byte orders (encoding/binary), maps, Go's errors.
--   Net          what the sources use of net, net/netip, strings and strconv, on byte lists.
--   Gateway/Wire           internal/gateway/wire.go and udp_stream.go: WritePacket, ReadPacket,
--                          MStream (Read, Write, CloseWrite), PacketStream (Read, Write).
--   Gateway/Datagram       internal/gateway/datagram.go: DatagramMux (register, receive, sender) and
--                          DatagramFlow (deliver, accept, Read, Write, Close, the deadlines).
--   Gateway/Server         internal/gateway/server.go: New, Permitted, handleDatagrams with serveUDP
--                          and serveUDPStream, and the slots of serve.
--   Routing                internal/routing/policy.go: Parse and the choice of a path.
--   AwgServer              internal/awgserver/config.go: Validate, Enabled, the durations, the headers
--                          of NewIdentity. AwgServer/Pool: the search of provisionAWG.
--   AwgServer/Worker       internal/awgserver/worker.go: Apply, Snapshot and confirmedActivity, on a
--                          device that is a parameter.
--   Admin                  internal/admin/store.go and protocols.go: Store, save, ConfigureAWG and
--                          provisionAWG; Admin/Accounts: Create, Rename, Delete, SetProtocols and
--                          the profiles; Admin/Sessions: allowed, Register, RegisterProtocol and the
--                          functions that they return; Admin/Listing: List, less the
--                          statistics of each account; Admin/Steps: any sequence of these.
--   Admin/Traffic          internal/admin/stats.go: the buckets of a user and their sums.
--   Admin/Live             internal/admin/stats.go and awg_stats.go: Track, the two functions that it
--                          returns, and, in Admin/Live/Awg, ObserveAWG.
--   Admin/Web              internal/admin/web.go and sessions.go: prune, getSession, authorized, login,
--                          logout, qr, enroll, delete, loadSessions, saveSessions.
--   DebugCapture           internal/debugcapture/pcapng.go: block, section, secrets, readPCAP.
--   DebugCapture/Session, DebugCapture/Manager, DebugCapture/Exclusion
--                          internal/debugcapture/capture.go: a session, the manager with its tickets
--                          and listeners, the peers that are left out.
--   DebugCapture/Packets, DebugCapture/Flows, DebugCapture/Users
--                          internal/debugcapture/user.go: checksum and the packets of emit; record;
--                          StartUser, captureAWG, StopUser, Mode, Wrap.
--   DebugCapture/Keys      internal/debugcapture/serverkeys.go: the write of TLS secrets.
--   Mobile/Router          mobile/multiple.go: MultiRouter.
--   Echo                   internal/echo/transit.go: handle and its probes.
--   Examples/    runs on concrete values.
-- The other files hold proofs and are named for what they prove.
--
-- How the code is read: a method takes the state and returns it with its result. A mutex makes its
-- section one step, so an interleaving is a sequence of steps; where the outside decides (a random
-- text, a clock, a dial, a save) the step takes the answer as an argument, and the step relations
-- range over all answers. A Go error is a value of GoError, told apart as far as the code does. A
-- uint16, uint32 or uint64 is a number, with its wrap-around written out as a remainder. A time is
-- the number of its nanoseconds, and 0 is the zero time; the traffic counts whole seconds. A channel
-- is the list of what waits in it. JSON is read as the decoded value, and a text that does not decode
-- is `none`. An IPv4 address is its number; an IPv6 literal is a text that does not parse, since each
-- caller refuses both. A random text is a number, and none is the empty text. A map is an association
-- list; where its order would show, the statements are about look-ups.
--
-- Fuel: write_chunks takes the length of the data, and each round writes at least a byte.
-- read_records takes the length of the file, and each round takes at least 16 bytes. free_address
-- takes one round for each address of the prefix. free_port takes one for each slot. send_chunks
-- takes the length of the data, and each round sends at least a byte. The carries of a checksum are
-- folded in two rounds. The round-trip and search theorems hold at exactly this fuel.
--
-- Not modelled: logging; deadlines of streams, which are left to the transport; the QUIC library
-- (third_party/quic-go), the operating system and the worker's device, which appear as arguments;
-- certificates, whose DER bytes, decoding and digest are arguments; the keys of AWG, which are
-- numbers; the web pages, the tunnels of the mobile client, the set-up of listeners and the
-- command-line programs. A closer is called behind the mutex in the code, and in the same step here.
pub mod Common
pub mod Net
pub mod AwgServer
pub mod Admin
pub mod DebugCapture
pub mod Gateway
pub mod Routing
pub mod Mobile
pub mod Echo
mod Examples
