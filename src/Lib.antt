-- ===== src/Lib.antt =====
-- The AI communications gateway: a core that routes calls and messages of AI agents to providers,
-- takes in what the providers report, keeps it in a cache and a store, and moves the audio of calls.
--
-- The parts and their files, with paths from the repository's root:
--   - Core/Types is src/core/types.ts. Optional fields are `Option`s, times and identifiers texts.
--   - Core/Session is src/core/session-manager.ts: `Manager` is the state of a SessionManager, and an
--     `Adapter` a provider, whose operations give their result, the events that they emitted before
--     they returned, and the world after them. Core/Session/Routing is resolveProvider,
--     Core/Session/Operations are the methods on calls and messages, Core/Session/Lifecycle is
--     fromConfig, shutdown and the listings from the store, and Core/Session/Events is
--     handleAdapterEvent with applyEventToLocalState, persistEvent and the subscription to the bus. Core/Status is mergeMessageStatus.
--   - Core/Phone is src/core/phone-normalization.ts, on lists of UTF-16 code units, and
--     Core/Conversation src/core/conversation-service.ts, whose subscription to the core and text of a
--     conversation are Core/Conversation/Recording.
--   - Media/Rtp is src/media/rtp-codec.ts on lists of bytes, Media/Engine src/media/media-engine.ts;
--     Media/Bytes has the operations of a Buffer.
--   - Persistence/Types is the interface of src/persistence/types.ts as a record of operations and of
--     the laws that the core relies on. Persistence/Memory (src/persistence/memory-store.ts) and
--     Persistence/Postgres (src/persistence/postgres-store.ts) implement it. Persistence/Redis is
--     src/persistence/redis-store.ts over the commands of the server, and Persistence/PostgresRedis
--     src/persistence/composite-store.ts.
--   - Adapters/TextBee is src/adapters/textbee-adapter.ts, Adapters/Stub src/adapters/stub-adapter.ts,
--     Adapters/Asterisk src/adapters/asterisk-ari-adapter.ts, Adapters/WhatsApp
--     src/adapters/whatsapp-adapter.ts.
--   - Cellular/Types, Cellular/Registry, Cellular/Stub and Cellular/ChanMobile are
--     src/cellular/types.ts, src/cellular/endpoint-registry.ts,
--     src/cellular/stub-cellular-voice-provider.ts and
--     src/cellular/asterisk-chan-mobile-provider.ts.
--   - Ari is what the two Asterisk clients share: the events of channels (Ari), the requests with the
--     media bridges (Ari/Requests), and the event socket with its reconnecting (Ari/Connection).
--   - Application has the voice sessions and the shutdown of
--     src/application/communication-application-service.ts, Mcp the event log and the voice sessions
--     of src/mcp/server.ts, Http the authentication of src/http/server.ts (Http/Sessions) and what it
--     reads of requests and answers to errors (Http/Answers).
--   - Prelude and JsMap are the shared types: results, lists and tests over the native numbers, and
--     `Map` with its order of insertion. Tests holds runs on concrete inputs.
--
-- How the parts meet: the core calls an adapter through `Adapter` and a store through
-- `PersistenceStore`. What an adapter reports goes through `handle_adapter_event`: it changes the
-- cache, is written to the store, and is published on the store's bus, which brings it back to the
-- core and on to the listeners. A record that the core changes in place is set anew under its key.
--
-- Asynchronous code is cut at its awaits. `persist_event` runs up to the read of the store and leaves
-- what follows in `pending`, for `resume`; `begin_session` runs up to the connection of the voice
-- provider and `finish_session` from there; `finish_dial` and `finish_simulate` go on with the answer
-- of the Asterisk server; `dial_timer` is a timer that fires. A call object that the Asterisk adapter
-- and the core share is two equal values, since each sets the same state in it. Reads of a store give
-- values: the in-memory store's own objects, which two readers of one message would share, are not
-- modelled. The bus delivers within `publishEvent`, as those of the in-memory and the SQL store do;
-- the one of Redis, of which Persistence/Redis has what a message reaches, does not.
--
-- Loops: `bind_loop` makes as many attempts as bindAvailablePort, and `chunk_from` has the length of
-- the buffer as fuel, of which each round uses at least one octet.
--
-- Not under src and so arguments: the clock, random numbers, new identifiers, the system's ports, the
-- HTTP answer of the TextBee service, the answers of the Asterisk server, HMAC, the reading of numbers,
-- toLowerCase, localeCompare, the Redis server, and what becomes of a time on its way through the
-- database.
--
-- Not modelled: the operations of the application service and the tools of the MCP server that pass a
-- request on, the routes of the HTTP server, the LiveKit adapter, the webhook servers, the loading of
-- the configuration, and the WebSocket client of the voice model. integrations/textbee is another
-- project that the gateway reaches over HTTP.
pub mod Adapters
pub mod Application
pub mod Ari
pub mod Cellular
pub mod Core
pub mod Http
pub mod JsMap
pub mod Mcp
pub mod Media
pub mod Persistence
pub mod Prelude
pub mod Tests
