-- ===== src/Lib.antt =====
-- Verification of codechiev, a C++ library of buffers, sockets, timers, job queues and a PostgreSQL
-- layer.
--
-- The program's parts, and the files about them:
--   * Buffer: codechiev/base/FixedBuffer.h, a fixed array with two offsets. Its operations are
--     functions of the same names that return `none` on a failed assert, on a use of memory outside
--     the array, and where the code leaves the result undefined. Buffer/Layout sees a buffer as the
--     part that is read, the part that can be read and the room; Buffer/Queue is its abstract queue.
--   * Internet: codechiev/net/Internet.h, for a host of either byte order, with its addresses
--     (Internet/Address). Time: codechiev/base/Time.cpp and Time.hpp.
--   * Channel: codechiev/net/Channel.hpp and Channel.cpp, a socket with a read and a write buffer.
--   * Coder: codechiev/net/TcpLengthCoder.h on a channel's buffers, with the loop of
--     codechiev/net/protobuf/ProtoClient.cpp and protoServer.cpp.
--   * Endpoint: TcpEndpoint of codechiev/net/TcpServer.cpp and TcpEndpoint.hpp, TcpServer of the
--     former (Endpoint/Server), TcpClient of codechiev/net/TcpClient.cpp (Endpoint/Client, and from
--     its start on Endpoint/Client/Start), `poll` of codechiev/net/EPoll.cpp (Endpoint/Poll), and
--     the loop of codechiev/net/EventLoop.h over the handlers of either (Endpoint/Loop). The state
--     is the channels that are alive and the trace of system calls; the answers of `read` and
--     `write` are a list. Endpoint/Server/Tracking and the files after it follow the poll and the
--     map of channels through the handlers, the loop (Endpoint/Server/Loop), and a server from its
--     start on (Endpoint/Server/Start). Endpoint/Arrival and Endpoint/Loop/One are about the first
--     bytes of a new channel, which reach the callback of a client (Endpoint/Client/Receiving) and
--     of a server (Endpoint/Server/Receiving, Endpoint/Server/Connection).
--   * Rpc: codechiev/net/protobuf/Rpc.cpp, which sends through an endpoint, and the server's side of a
--     call in codechiev/net/protobuf/protoServer.cpp (Rpc/Dispatch for a message, Rpc/Server for the loop's
--     thread and the threads of the queue together); Rpc/Delivery follows a call
--     through the endpoint and the coder, and Rpc/RoundTrip a call and its response.
--   * Http: codechiev/net/http/HttpServer.cpp, which takes messages out of a channel's read buffer;
--     Http/Stream is about messages that arrive in pieces.
--   * Timer: codechiev/net/Timer.cpp, the queue of timed tasks as a function of what happens to
--     it, one call after the other, and the arithmetic of its times (Timer/Clock), the scheduler
--     (Timer/Schedule), and a queue with its timer, scheduler and loop (Timer/System, which
--     Timer/Refine relates to the queue alone). addTask looks at the first task before it takes its
--     lock: Timer/Race has the rest of it, and Timer/Threads a queue whose calls are interleaved.
--   * BlockingQueue: codechiev/base/BlockingQueue.hpp and Condition.cpp, a step relation over threads.
--   * AtomicNumber: codechiev/base/AtomicNumber.h; Threads: codechiev/base/Thread.cpp and Mutex.cpp.
--   * CountLatch: the latch of codechiev/base/Condition.cpp, a step relation over the same threads.
--   * Singleton: codechiev/base/Singleton.h, for the process and (Singleton/Threads) for each thread.
--   * Logger: codechiev/base/Logger.cpp and Logger.hpp, which put a line together in a buffer.
--   * Openssl: codechiev/utility/openssl/RSA.cpp and Base64.cpp, with OpenSSL as an argument.
--   * Database: codechiev/db/SqlManager.h, Psql.cpp, orm.h and orm-psql.h, the pool, the statements,
--     the fields, the tables, the objects made of rows (Database/Rows), the calls of an object
--     (Database/Objects), and the connections among threads (Database/Lending).
--   * Common: what the others share; Examples: the theorems at concrete inputs.
--
-- Fuel: `drain` takes as many rounds as the buffer has bytes, since a message takes four bytes at least;
-- `take_messages` takes one round for each message and one more. `on_read` and `on_write` go through
-- the list of answers instead, and say when they are still in their loop at its end. `decode_loop`
-- takes one round more than there are bytes, since a round reads one byte at least.
--
-- Not modelled: the ids of threads, the texts of the time, random numbers, which boost
-- makes, the texts that boost makes of numbers, the WIN32 text of Singleton, and generated protobuf
-- code. What the clock, protobuf, libpq and OpenSSL answer is an argument of the definitions that use it. In the
-- files other than Threads, a section under a lock is one step.
pub mod AtomicNumber
pub mod BlockingQueue
pub mod Buffer
pub mod Channel
pub mod Coder
pub mod Common
pub mod CountLatch
pub mod Database
pub mod Endpoint
pub mod Examples
pub mod Http
pub mod Internet
pub mod Logger
pub mod Openssl
pub mod Rpc
pub mod Singleton
pub mod Threads
pub mod Time
pub mod Timer
