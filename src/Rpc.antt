-- ===== src/Rpc.antt =====
-- source/RPC: the messages of a call, the instance of one, its dispatch and its execution.
pub mod Request
pub mod Response
pub mod RpcInstance
pub mod Dispatcher
pub mod Executor
