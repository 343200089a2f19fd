-- ===== src/Lib.antt =====
-- A model of the agent communication network node: the wire format, the ACN protocol, the check of
-- a proof of representation, the mailbox of a peer, its routing, the clients, and the start of both.
--
-- An agent (or a client of the delegate service) talks to a node over a TCP connection, and nodes
-- talk to each other over libp2p streams. Both carry messages as a length and that many bytes. A
-- message is an ACN message: a registration, a lookup, an envelope, or a status. A node that gets
-- a registration or an envelope from another node checks the proof of representation in its agent
-- record. Agents without a connection use the mailbox, an http server that queues their envelopes.
--
-- Files and code:
--   Base      shared helpers. Outcome has Go's errors, panics and state passing: `Exec S A` is code
--             over a state `S` that ends in a value, an error or a panic. GoMap is `map[string]V`.
--   Wire      Word: encoding/binary. Conn: `net.Conn` and `network.Stream`, where the environment
--             chooses the deliveries. Buffered: bufio and io.ReadFull. Frame: `WriteBytesConn`,
--             `ReadBytesConn`, `WriteBytes`, `ReadBytes` (utils/utils.go) and the socket of
--             aea/pipe.go. Pipe: `Pipe` of common/common.go.
--   Acn       Message: the types of protocols/acn/v1_0_0/acn.pb.go and aea/envelope.pb.go. Codec:
--             the protobuf runtime, a parameter with its round trip. Protocol: acn/utils.go.
--   Aea       Handle: `HandleAcnMessageFromPipe` (aea/utils.go), `SendEnvelope` (aea/api.go). Api: the
--             queues of `AeaApi`, and the rounds of its two loops (aea/api.go). Config: `Init`, with the
--             environment as a function (aea/api.go). EnvelopeConn: `WriteEnvelopeConn` and
--             `ReadEnvelopeConn` (utils/utils.go).
--   Por       Ledger: addresses and signatures of the three ledgers (utils/utils.go). Check:
--             `IsValidProofOfRepresentation` (dht/dhtnode/utils.go). Crypto: the libraries, which
--             are parameters without laws. Digits: `big.Int`. Signing: `SignFetchAI`,
--             `VerifyFetchAISignatureLibp2p` and the keys (utils/utils.go); the laws that its libraries
--             document are the record `KeysLaws`.
--   Mailbox   State: `MailboxServer` and its critical sections. Handlers: the http handlers
--             (dht/dhtpeer/mailbox.go), over an interface of the peer behind them. State/View: the
--             mailbox without the order of its maps, a quotient.
--   Common    Line: a stream beside the state of the node that handles it. Handlers:
--             `HandleAeaEnvelopeStream` and `HandleAeaAddressStream` (dht/common/handlers.go). The
--             conversion of the key of the peer at the other end may fail; the error is ignored, as
--             in the code, and the key is then empty.
--             Proof: the texts of refused proofs.
--   Client    State: a `DHTClient` and its handlers. Dial: `newStreamLoopUntilTimeout` and the loop
--             of `bootstrapLoopUntilTimeout`, on a round for each attempt that begins before the
--             timeout, which a lemma shows to be enough.
--             Send, Route: `RouteEnvelope` (which is `route_client_envelope` here), where a run
--             that never ends is `none` (dht/dhtclient/dhtclient.go).
--   Peer      State: what the handlers read of a `DHTPeer`, and its environment. Records:
--             `getEnvelopeAcnRecord`. Streams: `_routeEnvelopeWithNewStream`, `lookupAddressDHT`
--             and `_routeEnvelopeDHTLookup`, with the rounds of providers that there is time for as
--             a list. Requests: `HandleAeaAddressRequest`. Route: `RouteEnvelope` (which is
--             `route_peer_envelope` here), `HandleAeaEnvelope`, and the rounds of
--             `slowEnvelopeSendLoop`. Announce: `RegisterAgentAddress`; the state keeps the cids
--             with which it called `dht.Provide`. Relay: `handleAeaRegisterStream`,
--             `handleAeaNotifStream`.
--             Delegate: `handleNewDelegationConnection`, one round of its loop at a time, and the
--             channels that it fills; `handleDelegateService` and `TLSListener` before it.
--             Metrics: `setupMonitoring`, over the interface of dht/monitoring/service.go.
--             Interfaces: the peer as the handler of its streams, and as the peer behind its mailbox
--             (dht/dhtpeer/dhtpeer.go).
--   Storage   `saveAgentRecordToPersistentStorage` and `initAgentRecordPersistentStorage`
--             (dht/dhtpeer/dhtpeer.go), with the rounds of the loop bounded by the length of the
--             file: each round but the last takes a header of four bytes.
--   Node      Addresses, Bootstrap: `GetPeersAddrInfo` and `BootstrapConnect` (utils/utils.go).
--             PeerOptions, ClientOptions: the options of peers and clients (dht/dhtpeer/options.go,
--             dht/dhtclient/options.go) and the checks of their `New`. Main: `main` of libp2p_node.go
--             up to the constructor of the node. Start: the host and the services that `New` of a
--             peer sets up, on the results of the libraries' calls (dht/dhtpeer/dhtpeer.go).
--             StartClient: the same for a client, and `Disconnected` of its notifee
--             (dht/dhtclient/dhtclient.go). Close: `Close` of peers and clients. Run: the whole of
--             `main` up to its wait for a signal, and the loop that routes what the agent sends.
--   Monitor   Gauge, Histogram, File: the metrics of dht/monitoring/file.go, in cells of a store.
--             Prometheus: those of dht/monitoring/prometheus.go. Timer: the timers of
--             dht/monitoring/service.go.
--   Tests     concrete values, and the theorems at them.
--
-- Functions keep their names in snake case. Bytes are numbers; a length on the wire is four bytes,
-- with remainders by 256. Where Go indexes or slices out of range or reads a nil pointer, the model
-- panics. `io.ReadFull` loops, and runs here on rounds: one for each byte that is wanted and one for
-- each delivery, since a round takes a byte or uses up a delivery, and so they are enough.
--
-- Not modelled: logging, the http, TLS and libp2p libraries, pauses and signals, and the places
-- where nodes count and time what they do. The certificate of `generate_x509_cert` comes from calls
-- of libraries alone and is a parameter. A handler of the mailbox is one sequence of its critical
-- sections; the interleaving of two handlers is that of the events of Mailbox.State.Refinement. The
-- mocks are generated, and the helpers of the tests are no part of the program.
pub mod Base
pub mod Wire
pub mod Acn
pub mod Aea
pub mod Por
pub mod Mailbox
pub mod Storage
pub mod Common
pub mod Peer
pub mod Client
pub mod Node
pub mod Monitor
pub mod Tests
