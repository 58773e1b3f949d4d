-- ===== src/Lib.antt =====
-- Verification of the gossip node of p2p_app and of what stands around it: the JavaScript of
-- protocol/, transport/, security/, storage/, node/, metrics/, ai/ and client/, and the simulation and
-- the state of visualizer/.
--
-- The program. A node keeps WebSocket connections to its neighbours, outbound ones that it dials and
-- inbound ones that it accepts (transport/connectionPool.js over transport/wsClient.js). A message
-- that arrives goes to the gossip engine (protocol/gossipEngine.js), which checks its proof of work,
-- the rate of the neighbour (protocol/rateLimiter.js) and its signature (security/index.js), merges
-- its Lamport time (protocol/lamportClock.js), drops it if it was seen, updates the routing table by
-- a subscription advertisement (protocol/topicRouter.js) or forwards the message to a few random
-- peers through the pool, and emits it to the node. Messages for a peer that is away wait in a
-- bounded queue (protocol/pendingQueue.js), and messages that need an acknowledgement are retried
-- (protocol/ackManager.js). Heartbeats (node/heartbeatManager.js, node/peerManager.js over
-- node/state.js) find the peers that have gone. What the engine emits, the node (node/index.js) saves
-- in a message store over LevelDB (storage/messageStore.js); a peer that connects again is sent the
-- stored messages later than its mark in batches (storage/syncManager.js), which its engine receives
-- like any others. Peers tell each other whom they know (node/discovery/peerExchange.js), and others
-- connect through a handshake (transport/wsServer.js). Peers are found by multicast DNS and by a list
-- of bootstrap addresses (node/discovery/). The command line client (client/cliClient.js) turns lines
-- into the node's commands. The visualizer does not run nodes: it computes the waves of a message on
-- a graph, and the links to add when nodes die (visualizer/src/simulation/gossipEngine.js), and keeps
-- what it shows in one state (visualizer/src/hooks/useGossipState.js).
--
-- The files.
--   Prelude        lists, JavaScript maps as association lists in insertion order (`Dict`, with
--                  `lookup`, `insert`, `remove`), sets of texts in insertion order, integers
--   Config         config/default.js
--   Metrics        metrics/collector.js: the names of the counters, and in its child Collector the
--                  collector, in Snapshot getSnapshot with the percentiles, in Reporter
--                  metrics/reporter.js
--   Pow            utils/pow.js
--   Protocol.Message        protocol/schema.js
--   Protocol.LamportClock   protocol/lamportClock.js: tick, update
--   Protocol.PendingQueue   protocol/pendingQueue.js: enqueue, flush
--   Protocol.RateLimiter    protocol/rateLimiter.js: checkLimit is check_limit, _refill refill,
--                           _recordViolation record_violation, _applyBan apply_ban
--   Protocol.TopicRouter    protocol/topicRouter.js: updateRoute is update_route, and so on
--   Protocol.GossipEngine   protocol/gossipEngine.js: state and the checks; its child Forward is
--                           forwardMessage, its child Receive is receiveMessage
--   Protocol.AckManager     protocol/ackManager.js: _transmit is transmit, _handleTimeout
--                           handle_timeout
--   Protocol.MessageFactory protocol/messageFactory.js: the methods are the constructors of Create
--   Node.State              node/state.js
--   Node.Peers              node/peerManager.js
--   Node.Heartbeat          node/heartbeatManager.js: _tick is tick
--   Node.Discovery          node/discovery/index.js, with its children Mdns (mdnsDiscovery.js) and
--                           Bootstrap (bootstrapDiscovery.js)
--   Security                security/index.js
--   Security.Sodium         the functions of libsodium that the security code calls, and their laws
--   Security.KeyPairs       security/keyManager.js: _loadKeys is load, _generateKeys generate
--   Security.Encryptor      security/encryptor.js
--   Node.PeerExchange       node/discovery/peerExchange.js
--   Node.P2pNode            node/index.js: the commands and 'message:new'; its child Arrivals has the
--                           other handlers that start installs
--   Storage.Keys            storage/messageStore.js: the keys, as code points
--   Storage.Level           the interface to LevelDB, its laws, and an instance in memory
--   Storage.MessageStore    storage/messageStore.js: flush is split into what precedes its await
--                           (flush) and the batch's landing (land); a read that awaits it is
--                           await_flush
--   Storage.SyncManager     storage/syncManager.js: onPeerReconnected is on_peer_reconnected up to its
--                           loop, rounds for the loop and finish for the rest
--   Transport.WsServer      transport/wsServer.js
--   Transport.NativeTransport  transport/nativeTransport.js, the server and the client
--   Node.Commands           node/index.js: the commands that publish looks for
--   Transport.WsClient      transport/wsClient.js
--   Transport.ConnectionPool  transport/connectionPool.js
--   Client.CliClient        client/cliClient.js: parse reads a line as a command, handle obeys it
--   Ai                      ai/aiClient.js
--   Visualizer.Simulation   visualizer/src/simulation/gossipEngine.js
--   Visualizer.SimMetrics   visualizer/src/hooks/useGossipState.js: the metrics
--   Visualizer.GossipState  visualizer/src/hooks/useGossipState.js: the callbacks are actions
-- The children of a module hold its theorems, Tests the runs on concrete inputs.
--
-- The modelling. A method takes the state and returns the new state with what it did to others, a
-- list of effects: sends, events, timers and counters. The clock readings of a call are arguments, in
-- milliseconds, one for each call of Date.now. Counts, times and timestamps are natural numbers, the
-- latter below 2^53, where JavaScript adds exactly; a ttl may fall below zero and is an integer. The
-- token buckets count thousandths of a token instead of floating-point tokens, so that a refill is a
-- whole number. Logging is left out. A field that is absent and one that is 0 or empty are one where
-- the code treats them alike, as each file says.
--
-- Parameters. Code outside the repository is an argument: libsodium's signatures behind the key
-- manager, the puzzle check, which may be a native add-on, JSON.parse of a payload, and Math.random,
-- of which only the range is used. For the keys and the encryptor, libsodium's functions are a
-- record with the laws that the code relies on, sizes included. A shuffle of the simulation is a
-- function that keeps the members and the length of a list; latencies, rounded ratios, the
-- announcements of mdns-js, parsed addresses and the reply of a fetch are arguments. LevelDB is an
-- interface (Storage.Level) of reads, batches and range scans; its laws say that a batch that
-- succeeds does its operations in order and that a scan has exactly the entries between its bounds.
-- Whether a write succeeds is an argument, and so is the reply of the AI service. Batches land in
-- the order in which they are handed to the database; which of them land between the reads of
-- getById is an argument. Whether the address of a WebSocket client is valid is one too, and so is
-- what the listeners of its events send.
--
-- Fuel. The selection loop of forwardMessage is on fuel, the number of available peers: each round
-- takes one off. The digits of a number n are on fuel, n + 1 rounds, each of which takes one digit off.
-- A session of the synchronisation takes its rounds as an argument, and a theorem says how many
-- suffice. The search for a nonce is on fuel, the million and one nonces that the loop tries.
-- A gossip round of the simulation is on fuel, twice the number of edges and one: a node transmits only
-- when it first receives the message. All other loops are by structure.
--
-- Not modelled: start and stop of the node, which call those of its parts in turn; sessions of the
-- synchronisation that overlap for one peer; what the constructors of the node's parts do beyond
-- their fields; the React components and the canvas of the visualizer, the web client and the
-- dashboards, which draw; the benchmarks and the scripts, which measure; the logger, which writes
-- lines. The native C++ add-ons and the Python service are written in other languages. The tests of
-- the repository are not part of the program.
mod Prelude
pub mod Config
pub mod Metrics
pub mod Protocol
pub mod Transport
pub mod Visualizer
pub mod Security
pub mod Node
pub mod Pow
pub mod Storage
pub mod Client
pub mod Ai
