-- ===== src/Client.antt =====
-- source/Client: the client's connections and its calls.
pub mod RpcClientStatus
pub mod TcpConnSync
pub mod TcpConnAsync
pub mod RpcClientImpl
pub mod RpcClient
