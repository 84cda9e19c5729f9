-- ===== src/Lib.antt =====
-- A NATS Core server in Rust: the protocol parser, the registry of subscriptions, and the tasks that
-- read and write one connection, the configuration and the listener. What is modelled is the crate
-- crates/server, with the raw client of its protocol tests and a scanner of its benchmarks.
--
-- Prelude holds the shared names: lists, lengths and tests over native numbers, and byte strings.
--
-- Subjects is crates/server/src/subjects.rs: `is_valid`, `has_wildcard`, `is_valid_publish`, `matches`
-- and `tokens`. Subjects/Grammar says what a subject is, Subjects/Matching what a filter matches.
--
-- Proto is crates/server/src/proto.rs. Proto/Types has its data, Proto/Parts the pieces of a body
-- (`Parts`), Proto/Size `parse_size`, Proto/Args the arguments of a line (`Args`), Proto/Line
-- `parse_line` and its verbs, and Proto/Feed the state machine `Parser::feed_into`. A `Bytes` is its
-- content, so a copy that owns its bytes is the same value. The loop of `feed_into` runs on fuel, one
-- more than the bytes that are unread: each round but the last takes two bytes at least.
--
-- Routing is crates/server/src/routing.rs without the deliveries: Routing/Registry has `Sub`, `insert`,
-- `remove`, `remove_conn` and the interest cache of a publishing task, Routing/Frame the frames. The
-- hash map of literal subjects is an association list. An operation that holds the registry's lock is
-- one step, and the numbers of atomic counters wrap as the source's do.
--
-- Client is crates/server/src/client.rs. Client/Outbox is the byte-counted queue, Client/Options the
-- options word and CONNECT, Client/World the state of all connections with the registry, Client/Spawn
-- how one comes and what is left to do when its reader has ended, Client/Route `route`, `pick_groups`,
-- `give` (routing.rs) and `no_responder_check` (lib.rs), Client/Handle the
-- operations of a connection, Client/Reader the reader task's decisions and Client/Writer the writer's.
-- The parser's events go to `handle` in their order; `handle` reads and writes the registry, and queues
-- frames on the outboxes, whose writers collect them. Client/Reader/Loop is the loop of `read_loop` over
-- a list of what ends its waits, and Client/Writer/Run that of `write_loop` over what each `select!` on
-- the buffers comes to, on fuel: one more than the bytes of a batch, since each write takes one at
-- least, and one more than the frames that wait, since each batch takes one at least.
--
-- Client/Stall is `wait_for_space` with what it waits for: a step relation in which every access of the
-- counter, the flag and the notification by a publisher that waits, the writer in `drained`, a push and
-- the closing task is a step of its own. A push that is accepted is one step, its bytes being on the
-- counter from the first; one that is refused is two. Making the future and enabling it is one step.
--
-- Nuid is crates/server/src/nuid.rs, over a given seed.
--
-- Arena is crates/server/src/arena.rs over the buffers of the crate `bytes`, and Arena/Build the part of
-- `build_frame` that writes into it.
--
-- Config is crates/server/src/config.rs: Config/Flags the command line, Config/Flags/Manual what its
-- options mean as a table of their names, Config/File the file with its values, Config/Duration
-- `parse_duration_str`, Config/Strings and Config/Number what the source uses of `str` and of number
-- parsing. A `String` is the list of its code points. The loop on a duration runs on fuel, one more
-- than the text's characters: each group takes one at least.
--
-- Server is `Server` of crates/server/src/lib.rs. Server/Info is crates/server/src/info.rs with
-- `info_line`, Server/Info/Reader a reader of JSON strings for what it writes, Server/Listener the
-- decisions of crates/server/src/net.rs, and Server/Startup those of `run` in
-- crates/server/src/main.rs: the command line and the file make the configuration with which a server
-- starts, which the listener's limit and the INFO line read.
--
-- AllocStats is crates/server/src/allocstats.rs with its feature on: the counters.
--
-- Wire is crates/core-it/src/wire.rs, the raw client of the protocol tests: the frames it writes, which
-- Proto/Feed reads, and how it reads what the server has sent.
--
-- Bench is `next_frame` of crates/bench/src/bin/floodpubsub.rs, by which the load generator's subscriber
-- reads what the server's frames are.
--
-- Parameters: the JSON library that CONNECT and INFO go through, the kernel's answers to a write, the
-- buffers of the crate `bytes`, the `Notify` of tokio, the parsing of a floating-point number, the
-- decoding of UTF-8, and the files that can be read. Laws of the crate `bytes` and of `Notify` are
-- hypotheses, which the tests fill with a buffer that is a list and a number, and with a notification
-- that is a Boolean.
-- Not modelled: sockets, timers, signals and the spawning of tasks; the text of the usage and the ports
-- file; the dump of the allocator's counters and its thread; frames that come in while the writer is at
-- work on a batch; the rest of the benchmarks and the process harness.
-- The counters that the arena's tags advance do not stand in the arena's state.
-- Tests applies the theorems at concrete inputs.
pub mod Prelude
pub mod Subjects
pub mod Proto
pub mod Nuid
pub mod Routing
pub mod AllocStats
pub mod Bench
pub mod Arena
pub mod Config
pub mod Server
pub mod Client
pub mod Wire
pub mod Tests
