-- ===== src/Lib.antt =====
-- azerust: a World of Warcraft 3.3.5a server in Rust. This library models the key
-- exchange, the account, realm and character services over MySQL, the auth server that clients log
-- in to, and the world server with its sessions.
--
-- The parts, and the code each one models:
--   Srp          crates/wow-srp/src/lib.rs: registration, the server's public key, the check of the
--                client's proof, the derivation of the session key. `BigUint` is ℕ; an array is a
--                list; a failed `expect` is the outcome `panic`.
--   Game         crates/game/src: the types of accounts, realms and characters, the two login tokens,
--                and the traits AccountService, RealmList and CharacterService as records of
--                operations over the state of a service.
--   Protocol     crates/protocol/src/auth.rs: the numbers of the auth protocol; header_crypto.rs: the
--                encryption of packet headers; world.rs and lib.rs: the opcodes, the response codes
--                and the packets of the world server (World, Packets).
--   MysqlAuth    crates/mysql-auth/src: both services over the tables of the database. A statement is
--                a function of the tables and may fail; the clock and the random draws are part of
--                the state. Statements holds the SQL of the accounts, Accounts the methods; Login,
--                Registration, Bans, Completion, Cache and Status hold the theorems.
--   MysqlCharacters  crates/mysql-characters/src/characters.rs: the service over the characters and
--                the blobs of an account, in the same way. The database chooses the order of a list.
--   AuthServer   services/auth/src: packets and their encodings (Packets, Readers, ClientPackets),
--                messages read from a socket that delivers segments (Stream, Message), the handlers of a
--                connection and its loop (Handlers, RealmListSize, Connection), the heartbeats of
--                the world servers (Heartbeats), the tasks that take turns (Server), and the program
--                with its arguments and its configuration (Main).
--   WorldServer  services/world/src: protocol/mod.rs, what a client sends (Readers, Decode, Framing);
--                world/session.rs, a session and what it sends (Socket, ServerPackets, Session);
--                world/world.rs, the handling of packets (Names, World); worldserver.rs, the login
--                (Login), the loop of a connection (Clients), the tasks that take turns (Steps), the
--                update task (Update) and the datagram to the auth server (Heartbeat); main.rs,
--                opt.rs and conf.rs (Main). A child of a module holds theorems.
--   Graphql      crates/graphql/src: the queries and mutations, and what they show of an account or a
--                realm.
--   Config       the reading and writing of configuration files, which both servers do alike, over the
--                files and databases of a machine.
--   Utils        crates/utils/src/lib.rs: the result of a spawned task.
--   Crypto, Bincode, Ciphers (in Protocol.HeaderCrypto), Zlib (in WorldServer.Decode) and Yaml (in
--   Config) are the crates that the code calls, as records of operations with their documented
--   behaviour; Tests holds an instance of each, a small database, and runs. The tests of the repository
--   are among them: those of crates/wow-srp under SHA-1 itself (Vectors), and those of
--   services/auth/src/protocol/packets.rs (Formats).
--
-- How they meet: AuthServer.Connection takes an AccountService and a RealmList; MysqlAuth provides
-- both; the tokens of Game.Accounts carry an SRP server from one message of a login to the next.
-- WorldServer.World takes a CharacterService, which MysqlCharacters provides, and WorldServer.Login an
-- AccountService, whose accounts carry the session keys that logins at the auth server store. Graphql
-- takes both services too: who registers over it logs in at AuthServer with what MysqlAuth stores.
--
-- Fuel: `connect_loop` has fuel for its rounds, and Termination shows that one more than the number
-- of bytes that are still to arrive is enough; `packets_of` has a round for each byte of its buffer,
-- which WorldServer.Framing.Loop is about; the loop of a connection to the world server is a step for
-- each of its rounds. Everything else recurs on its data. Integers are
-- natural numbers with `% 2 ^ w` where the source narrows them.
--
-- Not modelled: the building of the GraphQL schema and its HTTP routes, the parsing of arguments,
-- the binding of sockets, and logging, which are calls of other crates. A turn of either server is
-- one round of a connection, one datagram, one update or one packet, and no other task runs within a
-- turn; what a client is going to send stands in its stream, so a turn never waits. Sums of u16 and
-- products of u64 wrap, as in a release build.
pub mod Prelude
pub mod Utils
pub mod Crypto
pub mod Bincode
pub mod Srp
pub mod Game
pub mod Protocol
pub mod MysqlAuth
pub mod MysqlCharacters
pub mod Config
pub mod AuthServer
pub mod WorldServer
pub mod Graphql
pub mod Tests
