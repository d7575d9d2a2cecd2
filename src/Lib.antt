-- ===== src/Lib.antt =====
-- TidePool: a pooled cache for key-value blocks of inference engines. A connector routes a block key
-- to the node that owns it on a consistent-hash ring, which it rebuilds from the shard map of the
-- coordinator. A storage node keeps blocks in tiers, hottest first, under one local index; an
-- eviction policy chooses what leaves the DRAM tier, and what is read from the colder tier is
-- promoted. The wire codec turns requests and responses into frames.
--
-- Parts and files:
--   Api/Status, Api/BlockKey, Api/Block, Api/BlockCodec model include/tidepool/api and src/api: the
--     status codes and results, the key with its FNV-1a hash and its text form, the block and the
--     stored form of one.
--   Store/Index models src/store/index/local_index.cpp; Store/Dram models src/store/tier/dram and
--     Store/Ssd src/store/tier/ssd, with LevelDB as a parameter whose laws are in Store/Ssd/Laws;
--     Store/Lru, Store/Arc and Store/CostAware model the policies of src/store/eviction. Store/Map
--     and Store/Keys are the hash tables and the key lists that they share.
--   Store/Interfaces holds the abstract classes of include/tidepool/store/tier.h and
--     eviction_policy.h as records, which the node takes as parameters.
--   Store/Node, with Room, Serve and Lifecycle, models src/store/storage_node.cpp: the helpers and
--     the demotion of one victim, the loop that makes room, the requests, and Open and Close.
--     Store/Node/View states what a node serves, as a map from keys to blocks that the index and the
--     tiers make up together, and follows each step of a request in that map; Store/Exec/Runs has the
--     rules by which such a proof goes through early returns and the end of the process.
--     View/InMemory, and View/OnDisk with View/Contents, give the laws of a tier that this needs for
--     the DRAM tier and for the SSD tier, and View/Tiered for a node with tiers of both kinds.
--   Protocol/BigEndian, Protocol/Header, Protocol/Payload and Protocol/Message model
--     src/protocol/wire_codec.cpp.
--   Transport/Deadline, Transport/Poll, Transport/Connection and Transport/Connect model
--     src/transport/tcp/tcp_connection.cpp; Transport/Framing models wire_framing.cpp beside it, and
--     Transport/Backends the two classes of transport.h, most of whose operations answer
--     NotImplemented.
--   Rpc/TcpConnector, with Calls, models src/rpc/tcp_connector.cpp over an interface of a connection.
--   Client/ShardMap, Client/Ring, Client/Coordinator and Client/Connector model shard_map.h,
--     src/hashring, src/coordinator and src/client; Client/Connector/Embedded puts the connector, the
--     shard map, a transport and a storage node together.
--
-- Conventions. A field or method keeps its name in snake case. State is passed explicitly; each
-- public operation holds its object's mutex for its whole run, so it is one step. Store/Exec gives
-- the node's code early returns with the state reached by then. `std::terminate` is `none` or
-- `terminated`. Whether an allocation succeeds is an argument, or a list of answers in the state.
-- `size_t` and `uint64_t` have 64 bits, and their counters wrap around. Messages of statuses are
-- left out. A hash table is an association list, a node of a `std::list` is named by its key.
--
-- LevelDB. A write that it reports as done has taken effect; one that it reports as failed, or that
-- throws, has or has not. In View/OnDisk a number outside the C++ type of its field stands for no
-- input of the source, and the operation refuses it.
--
-- Fuel. Only the loop of `MakeDramRoomForLocked` has fuel: one round more than the tier counts
-- blocks at the start, since a demotion takes one block out of the tier. A run that needs more is
-- told apart as `out_of_fuel`.
--
-- A loop over system calls needs none: it follows a script of what the system answers, one entry for
-- each round, and a call that has used up its script is still waiting and has no result.
--
-- Parameters: `double` in the ARC and cost-aware policies, `std::hash` and `std::to_string` in the
-- ring, the tiers and the policy in the node, the coordinator, the transport and the local node in
-- the connector, LevelDB in the SSD tier, the answers of the system calls and of the resolver in the
-- TCP connection,
-- and the connection with its framing in the TCP connector.
--
-- Not modelled: the adapter for vLLM, the benchmarks and the tests; and of the modelled parts the
-- texts of messages.
pub mod Prelude
pub mod Api
pub mod Store
pub mod Protocol
pub mod Client
pub mod Transport
pub mod Rpc
pub mod Tests
