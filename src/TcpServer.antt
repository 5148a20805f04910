-- ===== src/TcpServer.antt =====
-- src/network/tcp_server.cpp and include/cpp_chat/network/tcp_server.h: the queues between the workers
-- and the network thread, the connections, the handlers of the event loop, and the set-up.
pub mod Queues
pub mod Connections
pub mod Loop
pub mod Listener
