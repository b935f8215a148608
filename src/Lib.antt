-- ===== src/Lib.antt =====
-- A model of the Linux image server: an HTTP server that accepts connections in an epoll loop, hands
-- each to a pool of threads as an `HttpHandler`, and answers from files and a user table in MySQL.
--
-- Parts, and the files that model them:
--   * Http: `HttpHandler` (src/http/http_conn.cpp, src/include/http_conn.h). Http/Types has the
--     enumerations and the fields that parsing uses; Http/Read is `read_`; Http/Line `parse_line_`;
--     Http/RequestLine `parse_request_`; Http/Headers `parse_headers_`; Http/Parse `parse_` with
--     `parse_content_`; Http/Request `do_request_`; Http/Response `write_to_buffer_` and the `add_`
--     functions; Http/Send `write_to_fd_`; Http/Process `process`, from its `parse_` on, and `write_`;
--     Http/Handle the whole of `process`, with the calls of `close`; Http/Life `init` and `close`;
--     Http/Request/Load `initmysql_result`.
--   * TimerList: `SortedTimerList` (src/timer/lst_timer.cpp), a doubly linked list on a store of nodes:
--     `add_timer`, `adjust_timer`, `del_timer` and `timeout`, and `adjust_timer` of a handler as
--     `postpone`, and the destructor. TimerList/Chain says when a store holds a list.
--   * BlockQueue: the circular queue of src/include/block_queue.h. BlockQueue/View is the type of
--     such queues up to the elements they hold.
--   * ConnectionPool: `connectionPool` of src/CGImysql/sql_connection_pool.cpp.
--   * ThreadPool: `ProcessThreadPool` of src/include/threadpool.h.
--     ThreadPool/Serving is the end of `run`, where workers take and give back connections, and
--     ThreadPool/Worker the body of `run` for an `HttpHandler`; ThreadPool/Drains is about a pool that
--     gets no new requests.
--   * Log: `Log` (src/log/log.cpp, src/include/log.h). Log/Lines is about the line buffer, Log/Rotate
--     and Log/Files about the files of a day, Log/Saves and Log/Async about the queue, Log/Init about
--     `init`; Log/Callers has the calls of `write_log` as they interleave, and Log/Destroy is the
--     destructor.
--   * Ssl: `SSL_writev` (src/ssl/ssl.cpp).
--   * Descriptors: src/common/common.cpp, with the kernel's calls as a record that
--     Descriptors/Flags gives its laws. Bits has the binary digits of flags.
--   * Sockets: src/io/io.cpp and `ssl_init` (src/ssl/ssl.cpp), with the calls for sockets and of
--     OpenSSL as a record; Sockets/Listen and Sockets/Context have its laws.
--   * Locker: the classes of src/lock/locker.cpp.
--   * ClientPool: `testing_`, `add_client_` and `add_ssl_client_` (src/client_pool/client_pool.cpp),
--     and `sig_handler` (src/include/client_pool.h), over TimerList, Http/Life, ThreadPool and
--     Descriptors, the loop in ClientPool/Loop; ClientPool/Start is the constructor and the destructor,
--     over Descriptors and Sockets, and ClientPool/Connector the `ConnectHandler` of
--     src/include/connector.h.
--     ClientPool/Nodes and ClientPool/Branches prepare ClientPool/Sound, on which ClientPool/Begins
--     builds; ClientPool/Follows prepares ClientPool/Stops; ClientPool/Exits is about the end of the
--     process.
--   * CString: the functions of the C library that the handler uses on arrays of bytes; CString/Decimal
--     is `%d` and strtol.
--   * Base: the names that the modules share, Boolean tests and list lemmas.
--
-- How they correspond. A function of the source is a function of the same name, without its final
-- underscore, from the fields that it reads and writes to those fields and its result; a guard or an
-- early return is an if or a case in the same order. A `char` is a number, an array a list of the
-- array's length, a `char *` into m_read_buf an offset, a null pointer `none`. An access outside an
-- array is a result of its own (`fault` or `none`). What the system answers (recv, writev,
-- pthread_cond_wait, the database, the file system) is a list of events or a parameter.
-- A thread's turn between two points where another can come in is one step. Two accesses outside an
-- array are not faults of their own: `complete_url` drops what strcat writes behind the buffer, and a
-- read of a string without end stops at the end of its array. The `mysql` of a handler that registers a
-- name is taken to be a connection.
--
-- Fuel and bounds. `parse` runs `parse_loop` on fuel, one round more than the read buffer has bytes:
-- every round that goes on has moved m_checked_idx forward inside the buffer. `write_to_fd` and
-- `read` consume one event for each call of the system, and say so where the events end. The loops
-- of the list of timers take one unit of fuel for each node that they pass, so that the length of the
-- list is enough; the destructor's loop too. The unsigned counters of the
-- pool of connections have 32 bits, `int` values that print or parse a length wrap at 2^31
-- (`int_of_bits`), strtol clamps at 2^63, the flags of a descriptor have 32 bits, a port 16.
--
-- The log's time, the success of fopen, and what SSL, accept, `new Timer`, epoll_ctl and close give are
-- fields of an event or arguments. A call of `write_log` with no other in between is one
-- function, and Log/Callers has its turns; the writing thread's pop and fputs are one turn.
-- `testing_` is modelled as it is without DEBUG_VERBOSE.
--
-- Not modelled: what the worker threads do to a handler while the loop runs; the destructors of
-- `BlockQueue` and `ProcessThreadPool`, which only release what they hold; htons, the address
-- 0.0.0.0 and `get_in_addr`, which prepare arguments of the system; an add_fd in `init` of a
-- handler that fails, which ends the process; the blocks under CGISQLPOOL and CGISQL, which
-- src/include/define.h leaves out, `handle_events` and src/CGImysql/sign.cpp, which are commented
-- out; the macros of src/include/logger.h, a copy of another project's, of which only the exit of
-- CONSOLE_LOG_ERROR matters here; the main functions and the test drivers.
-- `process` is modelled as it is under DEBUG, which src/CMakeLists.txt does not define; without it the
-- function only reports an error.
pub mod Base
pub mod Bits
pub mod CString
pub mod Descriptors
pub mod Sockets
pub mod Locker
pub mod Http
pub mod TimerList
pub mod BlockQueue
pub mod ConnectionPool
pub mod ThreadPool
pub mod Ssl
pub mod Log
pub mod ClientPool
