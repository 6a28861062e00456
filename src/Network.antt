-- ===== src/Network.antt =====
-- source/Network: the connections of the server, its settings and its acceptor.
pub mod NetConn
pub mod TcpConnAsync
pub mod NetConf
pub mod NetServer
