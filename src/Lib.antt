-- ===== src/Lib.antt =====
-- SmartMeet backend: rooms, chat, signaling, accounts, recordings and the SFU of a meeting server, in
-- Node.js.
--
-- The program. HTTP routes with their middleware call controllers, and controllers and Socket.io
-- handlers (src/sockets) call services (src/services). The room service keeps rooms and participations
-- in PostgreSQL, and caches the room list in Redis. The user service keeps accounts and signs tokens,
-- which the middleware and the socket handshake read. The signaling service keeps in memory which
-- sockets are in which room, and mirrors it into Redis. The SFU service keeps the calls, peers and
-- transports that it opened at mediasoup. The storage service keeps the files of recordings. The
-- handlers also keep the rate limiter's windows, the metrics, and the room that each socket has joined.
--
-- Files and code. A definition has the name of the function it models, in snake case.
--   Prelude           shared names: Boolean tests, lists over native numbers, keyed maps, texts,
--                     orders of rows, and calls that read and write a state and return or throw
--   Errors            src/utils/errors.js; Constants: src/config/constants.js
--   Models            src/models, and the unique indexes of src/migrations/001_initial_schema.sql
--   RoomService       src/services/roomService.js; Listing and Cache are its queries and its cache,
--                     and Roster its contract: who sits in which room, without rows and their ids
--   UserService       src/services/userService.js
--   Authentication    src/middleware/auth.js, and the handshake of src/sockets/index.js
--   StorageService    src/services/storageService.js
--   WebrtcService     src/services/webrtcService.js
--   RateLimit         the limiter of src/sockets/roomEvents.js
--   SfuState, SfuService
--                     src/services/sfuService.js
--   Metrics           src/utils/metrics.js
--   Analytics         src/services/analyticsService.js
--   Config            src/config/env.js
--   Validators        src/utils/validators.js
--   Lifecycle         src/server.js, and the connections of src/config
--   Sockets           src/sockets: State is what the handlers share, RoomEvents, SfuEvents,
--                     SignalingEvents and PresenceEvents are the files of these names
--   Controllers       src/controllers: Rooms, Recordings and Accounts, on the state App, which has the
--                     handlers' state, the cache and the files
--   Http              src/app.js, src/routes and src/middleware: Errors is the error handler, Requests
--                     what comes and goes, Payloads what is sent before the validation, Routes the
--                     chains of middleware
--   System            all of it as one transition system
--   Tests             the theorems at concrete inputs, and runs of the code
-- The other modules hold theorems, and are named for what they are about.
--
-- State and errors. The state of a service is a record, and an operation takes it and gives it back
-- with a result: a value, or the failure that the code throws; what was written before a throw stays,
-- but for a transaction. The handlers work on one record of all the states, in which each emission is
-- kept with the sockets that it reaches. Ids are numbers, since the program only compares them; texts
-- that it takes apart are lists of code units.
--
-- Interleavings. RoomService.Schedule splits a join where it awaits, between its checks and its
-- transaction, and lets any other requests in between; a transaction is one step, since it locks the
-- room's row. SfuService.Race splits the opening of a call where it awaits mediasoup. Elsewhere, and
-- in System, an operation or a handler is one step. The inserts of accounts are also taken in any
-- order, apart from the queries before them (UserService.Accounts).
--
-- Bounds. All loops are over lists that are there, so nothing runs on fuel. Numbers are natural, and
-- integers in the configuration; the code's counters and times stay far below the 2^53 up to which
-- JavaScript's are exact.
--
-- Parameters. bcryptjs and jsonwebtoken are records of their two calls, and Joi of one, with the
-- formats that it knows; a signature of jsonwebtoken is a text or an error. The order that
-- PostgreSQL gives to the rows of a query with ORDER BY is an argument too, since it leaves open how
-- rows of the same time stand (Prelude.Ordering). mediasoup's answers, S3's signatures, the answers
-- of writes of files, the verdicts of express-rate-limit, the answers of PostgreSQL and Redis to a
-- start, the clock, fresh ids, and whether an insert succeeds where its failure is caught, are
-- arguments.
--
-- Not modelled: failures of PostgreSQL's queries, where they are not caught or reported as such, and
-- foreign keys, to rows that the program never deletes; the body parsers, the log, Redis's
-- reconnections, the options of Socket.io and of the connection pool, and the SFU's codecs and
-- parameters, which the code only hands on.
pub mod Prelude
pub mod Errors
pub mod Constants
pub mod Models
pub mod RoomService
pub mod UserService
pub mod Authentication
pub mod StorageService
pub mod Config
pub mod Validators
pub mod Lifecycle
pub mod Controllers
pub mod Http
pub mod System
pub mod WebrtcService
pub mod RateLimit
pub mod SfuState
pub mod SfuService
pub mod Metrics
pub mod Analytics
pub mod Sockets
pub mod Tests
