-- ===== src/Lib.antt =====
-- Verification of MyNetCoreProxy, a reactor network library (src/net) with an HTTP proxy and a load
-- balancer on top of it (src/app).
--
-- How the parts interact. A Channel is a descriptor with an event mask; it registers with an EventLoop,
-- which keeps an epoll instance and a queue of tasks and calls handleEvent for what epoll reports. A
-- TcpConnection owns a Channel and two Buffers, and calls the layer above through callbacks or through a
-- handler. A TimerQueue keeps the timers of a loop and runs those that have expired. An Acceptor takes
-- new connections and hands them to the Server, which keeps a map of them and gives each to a loop of its
-- ThreadPool, where an EventLoopThread runs it. A handler, HttpProxyHandler or LoadBalancerHandler, keeps
-- one connection to a backend for the connection of a client; the LoadBalancer says which backends are
-- healthy and whose turn it is, and the HealthChecker reports to it what its probes find.
--
-- Files and sources:
--   Net/Buffer.antt            src/net/buffer.h, src/net/buffer.cpp: class Buffer
--   Net/InetAddress.antt       src/net/inet_address.h, src/net/inet_address.cpp: class InetAddress
--   Net/Channel.antt           src/net/channel.h, src/net/channel.cpp: class Channel, its mask and handleEvent
--   Net/EventLoop.antt         src/net/event_loop.h, src/net/event_loop.cpp: registration, tasks, wakeup
--   Net/EventLoop/Rounds.antt  src/net/event_loop.cpp: loop and doPendingFunctors
--   Net/EventLoop/Watch.antt   src/net/channel.cpp: enableReading to remove, with the loop
--   Net/EventLoop/Table.antt   an epoll instance as a table, for the runs at concrete inputs
--   Net/TcpConnection.antt     src/net/tcp_connection.h, src/net/tcp_connection.cpp: state, start, close
--   Net/TcpConnection/Setup.antt  the same: constructor and setters
--   Net/TcpConnection/Io.antt  the same: sendInLoop, handleWrite, handleRead
--   Net/TcpConnection/Crossing.antt  the same: the tasks of a connection, run by doPendingFunctors
--   Net/EventLoop/Creation.antt  src/net/event_loop.cpp, src/net/timer_queue.cpp: the constructors
--   Net/EventLoop/Threads.antt  src/net/event_loop.cpp: loop, runInLoop and quit in several threads
--   Net/EventLoop/Timing.antt  src/net/event_loop.cpp: runAt to cancel, and Timers, what they promise
--   Net/Timestamp.antt         src/net/timestamp.h, src/net/timestamp.cpp: class Timestamp
--   Net/Timer.antt             src/net/timer.h, src/net/timer.cpp, src/net/timer_id.h
--   Net/TimerQueue.antt        src/net/timer_queue.h, src/net/timer_queue.cpp: class TimerQueue
--   Net/TimerQueue/Posting.antt  the same: addTimer and cancel as tasks of the loop
--   Net/TimerQueue/Posting/Calls.antt  the same, in several threads, with the rounds of the loop
--   Net/Acceptor.antt          src/net/acceptor.h, src/net/acceptor.cpp: class Acceptor
--   Net/EventLoopThread.antt   src/net/event_loop_thread.h, src/net/event_loop_thread.cpp, and the
--                              destructor of src/net/thread_pool.cpp
--   Net/ThreadPool.antt        src/net/thread_pool.h, src/net/thread_pool.cpp: class threadPool
--   Net/Server.antt            src/net/server.h, src/net/server.cpp: the map of connections
--   Net/Server/Dispatch.antt   the same: constructor, start, the worker of a connection
--   Net/Server/Callbacks.antt  src/net/server.h: the setters
--   Net/Channel/Setters.antt   src/net/channel.cpp: the setters
--   App/LoadBalancer.antt      src/app/load_balancer.h, src/app/load_balancer.cpp: class LoadBalancer
--   App/LoadBalancerHandler.antt
--                              src/app/load_balancer_handler.h, src/app/load_balancer_handler.cpp
--   App/HealthChecker.antt     src/app/health_checker.h, src/app/health_checker.cpp: class HealthChecker
--   App/Backend.antt           what both handlers do with a backend
--   App/RouteTable.antt        src/app/route_table.h: class RouteTable
--   App/HttpProxyHandler.antt  src/app/http_proxy_handler.cpp: parsing, rewriting, the target of a path
--   App/HttpProxyHandler/Relay.antt, App/HttpProxyHandler/FlowControl.antt
--                              src/app/http_proxy_handler.h, src/app/http_proxy_handler.cpp: the handler
--   Demos/Echo.antt            src/demos/echo_server.cpp: the callbacks and the timer of main
--   Demos/StaticProxy.antt     src/demos/static_proxy_server.cpp: main up to loop
-- The other files under these hold lemmas, and the files named Tests the runs at concrete inputs. A C++
-- name aName stands as a_name; a method is a function of the object's state, and a method that may fail an
-- assertion, read outside its storage or divide by zero has a Result. Locks make each method that holds
-- one a single step. Prelude holds what the parts share: tests on numbers, lists, byte storage with
-- std::copy and resize (Slices), std::to_string (Decimal), std::string::find (Text), keys (Keys), std::set
-- (Sets) and std::pair (Pairs).
--
-- Numbers. size_t arithmetic is written with its remainder modulo 2^64, port numbers modulo 2^16, event
-- masks as 32-bit words; a buffer's storage is bounded by max_size of std::vector<char>.
--
-- Parameters. The kernel and the socket library are arguments: epoll_ctl as the interface Epoll with its
-- documented answers, write, readv, getsockopt, socket and connect by what they answer, inet_addr and
-- inet_ntop as functions. Callbacks of the layer above are functions on the connection; the properties
-- that call them ask that they leave the connection as it is, where they say so. The clock, the address
-- that new gives and what accept4, accept, open and epoll_wait answer are arguments of the calls. A double
-- of seconds is given by whether it is above 0 and by the microseconds that the cast leaves of it. The
-- handler and the checker use the timers through Timers, which Net/EventLoop/Timing.antt makes of a queue.
--
-- Fuel. The loop of handleWrite runs on as many rounds as bytes wait in the output buffer; every round but
-- the last takes one at least. The loops of handleRead, in TcpConnection and Acceptor, run over the list of
-- the kernel's answers, and EventLoop::loop over those of epoll_wait.
--
-- Timers. Where a class uses Timers, an operation takes effect at its call, as it does in the loop's thread
-- outside the queue of tasks; Net/TimerQueue/Posting.antt has the calls that are put off as tasks. A
-- pointer to a timer is a number and the heap a function: a use of a timer that was deleted is a fault.
-- Times are below 2^63, as int64_t holds them, and an expiration past that is a fault.
--
-- Threads. In Net/EventLoop/Threads.antt the steps of loop() and those that other threads take in
-- runInLoop() and quit() come as one sequence of actions, in any order that the code allows; the change of
-- a field and the write to the event descriptor behind it are two steps, and a thread between them is
-- counted. A direct call of a task has no action of its own but those of its calls. In Net/EventLoopThread.antt
-- a thread that is told to quit may stand anywhere in loop(). In Net/TimerQueue/Posting/Calls.antt the return
-- of an addTimer in another thread, which reads the timer, is a step apart from its post. A connection that
-- leaves the server's map is destroyed there: nobody keeps what findConnectionByFd has returned.
--
-- Not modelled: the race of two threads inside one method, where the code takes a lock; the counter of the
-- event descriptor at its limit of 2^64 - 2, where wakeup() would not be able to write; the test programs
-- under src/demos and log output, which have no logic of their own.
pub mod Prelude
pub mod Net
pub mod App
pub mod Demos
