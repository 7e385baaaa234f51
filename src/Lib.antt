-- ===== src/Lib.antt =====
-- ChatService: a chat server that speaks JSON, one object a line.
--
-- The server (server/main.cc) accepts connections, cuts what arrives into lines, reads each line as
-- a flat JSON object (common/Json.cc) and hands the object to the session of its connection
-- (server/ChatSession.cc), which chooses a handler of server/ChatServer.cc by the field `type`. The
-- handlers act on three managers, each a few maps behind a mutex: who is online and by which
-- connection (server/UserManager.cc), who is in which room (server/RoomManager.cc), and who calls or
-- talks to whom (server/CallManager.cc). Messages are kept by server/ChatStorage.cc. Answers, and
-- events for other users, are written as JSON lines to connections.
--
-- The parts, by file:
--   * Base and its children: bytes and texts, the maps of the standard library as sorted association
--     lists (`find`, `insert`, `erase`), tests into Bool. A text is the list of its bytes.
--   * Status: what an operation answers, `success` or `failure` with the text of its error.
--   * Names: `isValidName` (common/Protocol.cc) and `isValidCallId` (server/ChatServer.cc).
--   * Json: common/Json.cc. Json/Lexical has the strings and numbers, Json/Values the values that are
--     skipped over whole, Json/Objects `parseJsonObject`, Json/Printer the printer. A position in the
--     text is the rest of the text. The recursion of the values runs on fuel of three for each
--     character and three more (`enough`); the loop over a string has a round for each character and
--     one more, as has the loop over the members. The code does not bound how deep that recursion goes,
--     so it takes the levels that the stack of the thread holds, too, and `out_of_fuel` stands for the
--     crash when they are used up. `parseJsonObject`, and all that is built on it, is taken on a stack
--     with a level for each character; Json/Totality shows that no fuel runs out then, and Json/Stack
--     what a stack of a given size does.
--   * Protocol: `joinList`, `makeOkResponse` and `makeErrorResponse` of common/Protocol.cc, and
--     `fieldOrEmpty`.
--   * CallManager: server/CallManager.cc, one function for each method. `CallManager` holds the map of
--     the users and the map of the calls. CallManager/Invariant says how they belong together,
--     CallManager/Guards what the methods check, CallManager/Lifecycle what they do, and
--     CallManager/Histories has histories of operations, the book of calls that specifies them, and
--     the states a user goes through.
--   * RoomManager: server/RoomManager.cc, with the relation "is in the room" in
--     RoomManager/Membership, the rooms that exist in RoomManager/Existence, the two maps in
--     RoomManager/Mirror and the receivers of a message in RoomManager/Messages.
--   * UserManager: server/UserManager.cc, with what its operations answer in UserManager/Online.
--   * Commands: the language of typed commands of common/Protocol.cc. Commands/Tokens has the helpers,
--     Commands/Build `buildRequestFromCommand`, Commands/Typed the language as a data type.
--   * Server: server/ChatServer.cc, server/ChatSession.cc and server/ServerMetrics.cc. Server/State has
--     the state: the three managers, the storage, the name that the session of each connection holds,
--     and the lines sent so far. Server/Accounts, Server/Chat and Server/Calls have the handlers,
--     Server/Requests the dispatch and the two halves of `onConnection`, Server/Numbers the numbers in
--     texts. Server/Metrics has the counters, Server/Lines the loop of `onMessage` over the lines of a
--     buffer (Server/Lines/Split cuts them, Server/Lines/Loop has the loop), and Server/World the whole
--     server with a buffer for each connection. Server/Invariant shows what the components agree on,
--     Server/Guests what a connection can do before its login, Server/Receivers whom a message
--     reaches, Server/Messages how stored messages are written, and Server/Races what can come between
--     the halves of a logout.
--   * Storage: server/ChatStorage.cc. Storage/Database has what it uses of SQLite, Storage/Dump the
--     dump of all messages, and Storage/Dump/Listing its lines. The output file is a parameter: whether
--     it opens, whether its stream is good behind a text, and what it holds of the text when it is
--     closed, which may be less.
--   * StartUp: server/main.cc.
--   * TerminalClient: client/main.cc and client/ChatClient.cc. TerminalClient/Session has the lines that
--     a user types (a command, a request, or one that is refused) and the requests that the server
--     handles for them.
--   * LoadTest: tools/StressClient.cc, with the thread of one client in LoadTest/Thread. What the world
--     does in each round of its loop is given, with both readings of the steady clock; a thread that
--     is still running behind the last of these rounds has no result.
--   * Tests: runs on inputs that can be followed in the source.
--
-- Conventions. Every method of a manager and of the storage holds its mutex from the first line to the
-- last, so it is one step. A handler is taken as a whole: handlers run one after another, except in
-- Server/Races, where another handler runs between the two halves of a logout. A connection is a number
-- that stands for its identity; a connection in the user map is not null. The handlers take the storage
-- as a parameter: `Storage` has the four operations that they call, on a state of its own, and
-- Storage.chat_storage fills it. SQLite is a parameter, too: the record `Sqlite` has its calls, and
-- `IsTable` what its documentation says of INSERT and SELECT. Time is an argument, or a clock that
-- answers for each request by its number, whenever its line arrives. Ids and times are numbers from 0
-- on; a number that a client sends is read as `strtol` reads it, up to the largest `long` of 64 bits.
-- The loop over the lines of a buffer runs on fuel of a round for each byte and one more, and
-- Server/Lines/Chunks shows that it then ends by finding
-- no line break. The counters wrap at 2 ^ 64. A double is kept as the two sides of its quotient.
--
-- Not modelled: the log, the threads and the event loop, sockets and files, the report of the load test
-- (doubles), the waiting of the terminal client for its connection, the Qt client, the web client, and
-- the network library of muduo.
pub mod Base
pub mod Status
pub mod CallManager
pub mod Names
pub mod Json
pub mod RoomManager
pub mod UserManager
pub mod Tests
pub mod Protocol
pub mod Commands
pub mod Server
pub mod LoadTest
pub mod StartUp
pub mod Storage
pub mod TerminalClient
