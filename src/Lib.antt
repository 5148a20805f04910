-- ===== src/Lib.antt =====
-- cpp_chat, a chat server in C++: clients send length-prefixed JSON over TCP, and the server
-- keeps sessions, users, groups and messages, in memory or in MySQL. This library models the
-- parts from the system calls of a connection to the replies of a command and the statements of
-- the database, and proves what they promise.
--
-- PacketCodec models src/network/packet_codec.cpp: encode_packet, recv_packets_et and send_all.
-- What the kernel answers to recv and send is an argument, a finite run of answers whose last one
-- ends the loop. The packet loop runs on as many rounds as the buffer has bytes; a round that
-- goes on takes at least five, so the bound is never reached.
--
-- Protocol models src/protocol/message.cpp and include/cpp_chat/protocol/message.h: Protocol.Json
-- the JSON reader, Protocol.Format the writers, Protocol.Command parse_client_command. An
-- exception is the value err of Protocol.Result, with the text of what(). Strings are lists of
-- bytes. The loop of parse_json_object runs on as many rounds as there are bytes, and each member
-- takes at least one; numbers are written in at most twenty digits, enough for 64 bits.
--
-- Session models src/session/session_manager.cpp: the hash maps are association lists, and each
-- method holds the mutex throughout, so it is a function of the state. join_group and the other
-- methods on groups act on group_members.
--
-- Storage models the stores of src/storage/: Storage.Messages message_store.cpp, Storage.Users
-- user_store.cpp with its password functions in Storage.Users.Password, Storage.Groups
-- group_store.cpp and Storage.Members group_member_store.cpp. These modules are the mode without
-- a connection pool; their children named Pooled are the whole operations, with a pool or not,
-- and Storage.Messages.Queries has the texts of the statements on messages. Storage.Statements
-- has the sequence of calls of libmysqlclient that all stores share, with each early return. What
-- a call answers, given a text and its parameters, and what it makes of the database is a record
-- of functions (Server); theorems on what the statements mean take a server that runs them as
-- their texts say (IsMessageServer, IsInsertServer, IsMemberServer, IsUserServer), and Tests has such servers.
-- PKCS5_PBKDF2_HMAC of OpenSSL is a parameter and the answer of RAND_bytes an argument. Ids are
-- of 64 bits and wrap around in memory; positions in the vector of messages do not.
--
-- MySqlConnectionPool models src/storage/mysql_connection_pool.cpp and its header: the slots by
-- their addresses, the available ones, and init, acquire, release, the health checks and
-- shutdown, and the guard that releases a connection. What the database answers and the clock are
-- arguments; a wait in acquire that times out is one for which nothing is available.
--
-- ServerConfig models src/core/server_config.cpp: the bytes of the file and what getenv answers
-- are arguments, and a setting that does not parse or is out of range has its default.
--
-- Logger models src/logging/logger.cpp: the lines of the console and the statements on the table
-- server_logs; the time of a line is an argument.
--
-- Chat models src/chat/chat_service.cpp: Chat.Commands has one function for each branch of
-- handle_client_line, Chat puts them together. It calls parse_client_command, the session manager
-- and the stores in memory, and its result is the new state and the messages to send.
--
-- ThreadPool models src/core/thread_pool.cpp and include/cpp_chat/core/thread_pool.h: enqueue, a
-- worker's turn and the start of the destructor are steps, each under the mutex. The threads
-- themselves are not modelled.
--
-- TcpServer models src/network/tcp_server.cpp. TcpServer.Queues has process_packet_async: the
-- call of handle_client_line and the two queues that take its messages to the network thread.
-- TcpServer.Connections has the connections, their index by descriptor, and what is sent to one;
-- TcpServer.Loop the handlers of the events, which call the codec, enqueue the packets of a read
-- in the thread pool and write the responses; TcpServer.Listener setup_listener, start, stop and
-- run_event_loop, on a finite run of answers of epoll_wait. Each system call's answer is an
-- argument.
--
-- Base has the numbers, lists, maps and sets that the parts share. Tests has runs of the theorems
-- at concrete inputs.
--
-- Not modelled: the chat service over stores with a pool, since it takes the stores as they are
-- in memory; the reads and writes of the wake descriptor, which only make epoll_wait return; the
-- wrap of connection ids and generations at 64 bits; the threads of the pool; src/main.cpp and
-- src/app/, which only put the parts together.
pub mod Base
pub mod ServerConfig
pub mod MySqlConnectionPool
pub mod Session
pub mod PacketCodec
pub mod Protocol
pub mod Storage
pub mod Chat
pub mod Logger
pub mod ThreadPool
pub mod TcpServer
pub mod Tests
