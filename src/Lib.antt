-- ===== src/Lib.antt =====
-- Tailbridge: a bridge between a tailnet and private Railway networks over QUIC.
--
-- An edge accepts connections and datagrams for a virtual IPv6 prefix and hands them to the connector
-- of that prefix; the connector forwards them into its private network. A registry, kept in SQLite by
-- the edge, decides which connector may hold which prefix: a connector asks for a registration, an
-- approval with an OIDC token grants it with a lease, renewals extend it, and a revocation or the end
-- of the lease takes it away. Edge and connector speak length-prefixed JSON frames and a binary
-- datagram format.
--
-- Files, and the code that they model:
-- - Common and below: Booleans, lists, results, SQL-like tables (select, update, delete, count) and
--   byte strings, with their lemmas.
-- - Net: net/netip of Go's standard library, as far as the program uses it.
-- - Streams: io.ReadFull, io.Writer as an interface, and writeAll of internal/protocol/protocol.go.
-- - Protocol.Datagram: internal/protocol/datagram.go. Protocol.Frame: ReadFrame and WriteFrame of
--   internal/protocol/protocol.go; encoding/json is a parameter.
-- - Registry: internal/registry/registry.go. Db is the database, one list for each table; Registry
--   declares the rows, Queries the reads, Requests CreatePending, Routes the prefix pool and the route
--   generations, Approve the approval and the replay records, Leases rotation, renewal, revocation and
--   expiry, Static ImportStatic. A transaction returns its database or an error, and an error is a
--   rollback; `now` is the clock read once by the operation. SHA-256, the calendar and the text form of
--   prefixes are the parameter Platform.
-- - Edge.Translation: internal/edge/translation.go. Edge.Flows: the UDP flows of
--   internal/edge/edge.go, and Edge.Routes its `route`; each call that takes the mutex is one step on
--   Table.
-- - Config.Prefixes: Allowed, IntersectPrefixes and ValidateAcceptedRoutes of
--   internal/config/config.go; Net.Nesting and Net.Overlaps hold the arithmetic of prefixes.
-- - Dnsproxy: internal/dnsproxy/dnsproxy.go, with Dnsproxy.Tcp for DNS over TCP. The messages are data
--   types; the functions of github.com/miekg/dns are the parameter Library.
-- - Connector: the UDP session of internal/connector/connector.go, a state Session and one function for
--   each call under the mutex; Connector.Tcp: its handleTCP and
--   validateAccepted; Connector.Delays: the waits of Run.
-- - Oidc: internal/oidc/validator.go, with Oidc.Keys for the keys of a provider and Oidc.Tokens for
--   Validate. base64, JSON, SHA-256 and RSA are the parameter Library; Clock holds each reading of the
--   clock, and the registry's operations have their own.
-- - Approval: the reads of internal/approval/server.go and the checks of a request, and
--   Approval.Handlers its approve and revoke, on the database of Registry and the cache of
--   Oidc.Keys, and Proof of internal/enrollment/client.go.
-- - The modules named Examples hold the runs at concrete inputs.
--
-- How they interact: receive_udp of Edge.Flows decodes with decode_udp of Protocol.Datagram; Approve
-- and Leases use the pool and the route generations of Routes and the reads of Queries; the frames are
-- written with write_all of Streams. The connector's receive and read_response use the same datagrams
-- and query and response of Dnsproxy; what it answers is accepted by receive_udp of the edge. The
-- rewriting of addresses in Dnsproxy is undone by Edge.Translation. The approval handlers ask validate
-- of Oidc.Tokens and then approve or revoke of Registry.
--
-- Bounds and fuel: write_all gives its loop one round for each byte of the payload, which is enough
-- since a round that goes on takes a byte at least. Flow numbers wrap at 2^64 as in the code, and the
-- address arithmetic of slots wraps at 256. The SQLite integer keys are unbounded here.
--
-- The two loops of DNS over TCP get one round for each byte and one more, since a message takes three.
--
-- Not modelled: failures of SQLite itself, the opening of its file, the listeners, sockets, deadlines
-- and goroutines, the telemetry and logs; of config the loading and checking of the settings, of oidc
-- the checks of its New and cacheMaxAge, of the edge its sessions and DNS entry; and the packages
-- enrollment (but for Proof), pki, reconcile, status, transport, netpolicy, observability, logging,
-- proxy and the commands.
pub mod Common
pub mod Net
pub mod Streams
pub mod Protocol
pub mod Oidc
pub mod Registry
pub mod Approval
pub mod Config
pub mod Connector
pub mod Dnsproxy
pub mod Edge
