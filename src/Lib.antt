-- ===== src/Lib.antt =====
-- tzrpc: a model of the RPC framework and of what its server and its client do with bytes
--
-- A client puts a request (service, operation, payload) into an RPC message, that into a network
-- message, and that on a socket. The server's connection cuts the stream of bytes into network messages
-- and hands each payload to the dispatcher, which checks the request and passes it to the service of its
-- id. The reply takes the same way back.
--
-- The files, and the code that each models:
--   Prelude      names, Boolean tests, lists and the integers that the others share
--   Core/Endian  the calls of <endian.h> and the bytes of an integer in memory, for both byte orders
--   Core/Message, Core/Buffer
--                source/Core/Message.h and source/Core/Buffer.h
--   Rpc/Request, Rpc/Response
--                source/RPC/RpcRequestMessage.h and source/RPC/RpcResponseMessage.h
--   Rpc/RpcInstance, Rpc/Dispatcher
--                source/RPC/RpcInstance.{h,cpp} and source/RPC/Dispatcher.{h,cpp}
--   Rpc/Executor
--                source/RPC/Service.h, source/RPC/Executor.{h,cpp} and
--                source/Protocol/ServiceImpl/RpcServiceBase.h
--   Protocol/XtraTaskService
--                source/Protocol/ServiceImpl/XtraTaskService.{h,cpp}
--   Network/NetConn, Network/TcpConnAsync
--                source/Network/NetConn.h and source/Network/TcpConnAsync.{h,cpp}; the receiving side of
--                the latter is in Network/TcpConnAsync/Read
--   Network/NetConf, Network/NetServer
--                source/Network/NetConf.h and source/Network/NetServer.{h,cpp}
--   Client/TcpConnSync, Client/TcpConnAsync
--                source/Client/TcpConnSync.{h,cpp} and source/Client/TcpConnAsync.{h,cpp}
--   Client/RpcClientImpl, Client/RpcClientStatus
--                source/Client/RpcClientImpl.{h,cpp} and source/Client/include/RpcClientStatus.h; the
--                asynchronous calls are in Client/RpcClientImpl/Async
--   Client/RpcClient
--                source/Client/RpcClient.cpp and source/Client/include/RpcClient.h
--   Captain, Main
--                source/Captain.{h,cpp} and main.cpp; the signals of setup.cpp are in Captain/Runtime
-- Below each of them are the modules with its theorems. Protocol/XtraTaskService/Echo and Pipeline follow
-- a request through several parts. Server is the whole server with all its connections, up
-- to the calls of async_send_message; what such a call does is in Network/TcpConnAsync. Tests runs the
-- model at concrete inputs.
--
-- Names are the source's in snake case, so that handle_RPC is handle_rpc, without the underscore at the
-- end of a member. A method is a function from
-- the state of its object to the state after it, with the result where it has one. A byte is a number
-- below 256; an integer of w bits is a natural number whose wrap-around is written out. The byte order
-- of a host is an argument, so that the two ends of a connection may differ.
--
-- A socket is a record of what was asked of it: calls, reads and writes in progress, and every byte that
-- was handed over. What comes from it is an argument: a chunk of bytes or an error for each read of the
-- server's connection, a list of results for the blocking connection of the client, and for a call
-- whether its timer runs out and when. The handlers of one connection run one after the other, as its
-- strand makes them; a theorem on their order is about every sequence of steps. The source also sends from
-- other threads, and its do_write tests send_status_ outside the lock: sends are steps of their own, each
-- run to its end, and Network/TcpConnAsync/Overlap has two that overlap.
--
-- The receiving handlers of the server call each other. The model bounds these calls by fuel, 2 n + 4 for
-- n bytes in the buffer: each message takes two calls and at least sixteen bytes.
--
-- SAFE_ASSERT, a macro of another project, is taken not to stop the program: behind most of its uses the
-- code tests the same condition again.
-- Not modelled: boost's sockets and timers, the socket options, Roo's threads and queues, libconfig and
-- protobuf, which are other projects' code; the log; times.
pub mod Prelude
pub mod Core
pub mod Rpc
pub mod Network
pub mod Client
pub mod Captain
pub mod Main
pub mod Pipeline
pub mod Tests
pub mod Protocol
pub mod Server
