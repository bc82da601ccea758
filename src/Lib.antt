-- ===== src/Lib.antt =====
-- The verification library of Inference Mesh, a peer-to-peer network that runs a language model in
-- parts on several machines.
--
-- A worker announces the layers it holds in a DHT. A client looks up a provider for each layer it
-- wants, makes a chain of peers of them and sends one request to the first; the request carries its
-- route and a hop index, each worker passes it on, and the last worker computes, or echoes the
-- tensor back. The response goes back through the same workers.
--
-- Base: names shared by all modules, Boolean tests, lists over the native ℕ, `Result` (a value,
--   an `Err`, or a panic), and `HashMap` as a list of entries with distinct keys.
-- Protocol: src/protocol/src. Dtype (types.rs), Request (request.rs), Response (response.rs),
--   Codec (codec.rs). Schema holds what schema/inference.capnp says of the messages, the parameter
--   `Wire` for the Cap'n Proto runtime and the bytes of a PeerId, and `IsFaithful`, the documented
--   laws: a message that is written within the limits can be parsed again and reads the same.
-- P2p: src/p2p/src. Routing (routing.rs), Dht (dht.rs), ProviderCache (provider_cache.rs), Types
--   (types.rs), Sequence (sequence_manager.rs), BlockSelection (block_selection.rs), Ping
--   (ping.rs), and from swarm.rs Worker (`run_worker`, `handle_terminal_hop`, `send_echo_response`,
--   `add_bootstrap_addr`) and Client (`run_client`, `dedup_chain`) and StreamClient
--   (`run_stream_client`) and Bootstrap (`run_bootstrap`). Net is what they take from libp2p. An
--   event loop is a function `step` from a state and an event to the next state and the commands
--   given to the swarm, and `run` on a list of events; what the swarm and the clock answer during an event is the argument `Answers`.
--   Sequence/Graph, Search and Latency are `dijkstra_min_latency`: its nodes and edges, the search
--   with the heap as a list from which the least state is taken, and the way read back from it.
--   Search/Links follows the links back, Search/Reaches the edges forth, and Latency/Complete puts
--   them together.
--   Sequence/Priority is `compute_spans` and `spans_by_priority`, and its Grown and Listings say
--   which blocks a span is made of. BlockSelection/Windows is about one run of blocks, and Best about the choice
--   among them. Dht/Records is what dht.rs asks of
--   Kademlia, with the cases in which it refuses.
--   Network is a request on its way through the workers (`Trip`), each a state of `run_worker`'s
--   loop, from the client's request (Network/Served) to the response; Worker/Kept says that a worker
--   that waits keeps its channel.
-- Compute: src/compute/src. MemoryCache (memory_cache.rs), Config and Rope (types.rs), Block
--   (block.rs) and Engine (engine.rs), over candle's tensors as the parameter `Candle`. Shapes holds
--   what candle documents of the shapes of tensors, as the hypotheses `HasLayout`, `HasArithmetic`
--   and `HasWeights`; Rope/Shaped, Block/Attended, Block/Shaped, Block/Fitted and Engine/Answers
--   follow the shapes through a block, from the model's sizes to a pass. MemoryCache/Threads has the
--   calls of several threads, which move in the order of a schedule: a move goes up to the next
--   atomic operation, and `free` holds the map's lock over two of them. Threads/Limit follows two
--   calls that have both passed the limit's test.
-- Cli: src/cli/src/main.rs, the range of layers of the `worker` command, the way from its arguments
--   to the settings of `run_worker` (Start), and the loop of the `generate` command (Generate).
--   Cli/Answers, Cli/Replies and Cli/Flat put the command line, the engine and the worker together.
-- Tests: the parameters as concrete functions, and the theorems at concrete inputs.
--
-- Conventions and bounds. Integers are numbers with the wrap-around written out where the code can
-- meet it, as in a release build: `hop_index + 1` modulo `2 ^ 32` and the casts `as u32`. A byte is
-- a number, text is a list of bytes, an instant is a number of nanoseconds. `f64` and `f32` are
-- parameters or bit patterns. A hash map's order is that of its list; no theorem depends on it. The
-- loop of `make_sequence_max_throughput` runs on fuel, one more than the number of blocks asked
-- for; each round goes at least one block on, so that is enough, which is part of its theorem. The
-- search of `dijkstra_min_latency` runs on as much fuel as the first state can lead to rounds, with
-- the number of edges as a bound on those of a node; that it is enough is part of its theorem. The
-- digits of a `u32` are written on ten units of fuel, which every `u32` needs at most.
--
-- Not modelled: libp2p, Cap'n Proto, candle and serde themselves, logging, building and
-- configuring the swarm, which only calls libp2p, reading a model's files, and the rest of the
-- command line.
pub mod Base
pub mod Protocol
pub mod Cli
pub mod P2p
pub mod Compute
mod Tests
