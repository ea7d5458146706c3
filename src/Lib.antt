-- ===== src/Lib.antt =====
-- Verification library of waspp, a C++ web framework: how the server reads a request, decides what
-- to do with it, answers it, and shares its connections to databases.
--
-- A connection gives the bytes it receives to the request parser until a request is complete, has
-- the parameters, cookies and content of the request taken apart, and gives the request to the
-- handler. The handler tests the client's address, decodes and tests the path, calls the function of
-- a route or sends a file, and fills out the response, which is written to the socket. The functions
-- of the routes take connections from pools and give them back.
--
-- The files, with the code they are about:
--   Base       lists, bytes and Boolean tests that the others share
--   Request    src/request.cpp, src/request.hpp, src/name_value.hpp, src/multipart.hpp
--   Strtol     `strtol` of the C library, base 0, as the parser uses it
--   Parser     src/request_parser.hpp: `parse`, its loops (Parser), the byte classes (Parser/Chars),
--              what a byte does in each state (Parser/Step), the machine that takes one byte at a
--              time (Parser/Run), the invariant (Parser/Clean, Parser/Sound), and written messages
--              (Parser/Message)
--   Fields     src/request_parser.cpp: `parse_params`, `parse_cookies`, `parse_content`
--   Utility    src/utility.cpp: percent and base64 codecs, comparisons, `get_extension`
--   MimeTypes  src/mime_types.cpp
--   Response   src/response.cpp, src/response.hpp
--   Config     src/config.hpp; `init`, `get` and `err_msg` of src/config.cpp (Config/Init), and what
--              holds of a configuration that `init` has accepted (the other children)
--   Router     src/router.cpp
--   Handler    src/request_handler.cpp: `handle_request`, the access lists (Handler/Access), the
--              decoding of the path (Handler/Validate)
--   Session    src/session.cpp: the session that a signed cookie carries
--   Connection src/connection.cpp: the handlers of reading and writing; pieces of input
--              (Connection/Chunks), the steps of a connection (Connection/Answers), and an exchange
--              (Connection/Exchange), and src/connection_ssl.cpp (Connection/Secure)
--   Pool       src/dbconn_pool.cpp and src/redis_pool.cpp, which are the same code over two kinds of
--              connections, and the interleavings of threads (Pool/Interleaving),
--              and src/spinlock.hpp (Pool/Spinlock)
--   Shards     src/database.cpp and src/redis.cpp, likewise one code over two kinds of pools, and
--              `init_pool` of both pools; what `init` leaves (Shards/Loading), which pool a key
--              selects (Shards/Range), the guards `scoped_db` and `scoped_rd` (Shards/Guards)
--   Logger     src/logger.cpp: tasks and the thread that runs them; files (Logger/Files), the journal
--              that they are (Logger/Journal), interleavings (Logger/Refines, Logger/Drained)
--   Mysqlpp    src/mysqlpp_statement.cpp (Mysqlpp/Statement), src/mysqlpp_result.cpp (Mysqlpp/Column),
--              the life of a result (Mysqlpp/Fetch), src/mysqlpp_connection.cpp (Mysqlpp/Handles),
--              `datetime` of src/mysqlpp.hpp (Mysqlpp/Datetime), what the client sees of bound
--              values (Mysqlpp/Seen)
--   Routes     src/route_dir_forum.cpp, src/route_dir_user.cpp, src/route_dir_performance.cpp: actions
--              that may return early or throw (Routes), the functions (Routes/Forum, Routes/User,
--              Routes/Performance), their table (Routes/Table), rules for what an action keeps
--              (Routes/Ends) and what it makes of what holds before (Routes/Triple), for whom
--              entries are written (Routes/Authorized, Routes/Owned), and which files are read
--              (Routes/Confined)
--   Tests      the theorems at concrete inputs
--
-- A string is a list of bytes below 256 (`char` is signed: the comparisons of the source are written
-- out for the bytes from 128 on). An `int` that is counted down is its 32-bit pattern. A function
-- that changes an argument returns its new value; one that throws, or has undefined behaviour,
-- returns an outcome that says so. A function of the source that returns a reference to a vector's
-- entry returns the entry's value and the new vector.
--
-- Fuel: `parse_loop` has the length of the input, of which each round takes a byte (the byte machine
-- of Parser/Run has no fuel and gives the same); `form_loop` has one more than the length of the content,
-- of which each round takes a separator, and gives no result when its rounds run out (Fields/Content/Fuel
-- is about this); the loop over the parts of a multipart body has one more than the length of the content,
-- and each round moves on by a separator.
--
-- The access lists are read from `config` by value, and the source searches between iterators of two
-- copies and compares with one of a third, which has no defined outcome: what comes of the search is an
-- argument of Handler/Access, any function. A file system is a function from the bytes of a
-- path to the bytes of a file. The compressor, the digest, the archive of sessions, the random
-- number, the clock, `strftime`, the reader and the writer of JSON, the MySQL client and, in Routes,
-- the databases are arguments; the handler takes any functions of the routes, and Routes/Table gives
-- it those of the source. Steps of threads are interleaved, each as a whole; data races are not
-- modelled.
--
-- Left out or narrowed: `remote_endpoint()` of a connection is taken to succeed; the numbers that `init`
-- reads with `strtod` are taken to be natural numbers; a signed counter that goes below its least value,
-- which C++ leaves undefined, goes on as its 32-bit pattern, in the parser's count of the body and in
-- `base64_decode`.
--
-- Routes does not follow the release of a `scoped_db`, the lifetime of values that are bound to a
-- statement, and the second deletion of statements (Mysqlpp/Handles does).
--
-- Not modelled: the start of servers, the calls of the MySQL and Redis clients themselves, and the
-- timing of blocks. `md5_digest` and `gzip_str`
-- only call other libraries.
pub mod Base
pub mod Request
pub mod Strtol
pub mod Parser
pub mod Fields
pub mod Utility
pub mod MimeTypes
pub mod Response
pub mod Config
pub mod Router
pub mod Handler
pub mod Session
pub mod Connection
pub mod Logger
pub mod Pool
pub mod Shards
pub mod Mysqlpp
pub mod Routes
pub mod Tests
