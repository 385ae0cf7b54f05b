-- ===== src/Lib.antt =====
-- A model of the chat server and its client: a reactor library (webserver/), the chat service on top
-- of it (chatservice.cpp, chatserver.cpp), the classes that store users, friends, groups and messages
-- (model/), the pool of database connections that these share (mysql/), the Redis client by which
-- servers pass messages on (utils/redis.cpp), and the console client (client.cpp).
--
-- How the parts interact. A loop thread reads a connection's bytes into its input buffer and calls
-- `ChatServer::onMessage`, which parses the text and calls the handler of its `msgid`. A handler works
-- on `UserConnMap`, on the database through the model classes, and sends to connections or to Redis.
-- A closed connection reaches `clientCloseException`, and a message of another server
-- `handleRedisSubscribeMessage`. The client's main thread sends requests, and its second thread prints
-- what the server sends and lets the main thread go on.
--
-- Files:
-- Prelude: tests, lists, maps, texts and `%d`/`atoi` that the other modules share.
-- Platform: what the server calls and does not implement, as a record of operations: the JSON library
--   of utils/json.hpp, the database behind a connection, and whether the pool grants a connection.
--   Platform/Json has the values and objects that the program prints, and what it relies on when a
--   printed text is parsed.
-- World: the state of a handler (`UserConnMap`, the database, the calls made so far) and the monad in
--   which handlers are written; an exception or undefined behaviour ends a handler. World/Framed and
--   Model/Framed are about the actions that have nothing to do with the map.
-- Model: model/. Statements has the SQL texts, Rows the reading of rows; one module per class, one
--   function per member function. Model/Runs says how they run when connections are granted.
-- Service: chatservice.cpp and chatserver.cpp. Sessions has login, loginout, reg,
--   clientCloseException and reset; Chats has oneChat, groupChat and handleRedisSubscribeMessage;
--   Relations has addFriend, createGroup and addGroup; Responses the JSON texts; Messages the
--   handler map; Dispatch onMessage and onConnection; Startup the constructor and `main`. Delivery,
--   Registry, Credentials, Races and Closing have the lemmas about these, in which a handler runs in
--   one piece. Threads/Handlers has the handlers again as threads, with the places where `ConnMutex`
--   is locked and unlocked, and Threads/System the relation that lets the steps of all threads come
--   in any order; Threads/Guarded, Locking and Progress are about the mutex, Admitted and Entering
--   about the entries of the map, and Amid about one handler when others come between its calls.
-- Net: webserver/. Buffer (Buffer.h, Buffer.cpp), Channel (Channel.h, Channel.cpp; Channel/Lifetime
--   has the tie), Connection (TcpConnection.cpp; Connection/Remote has a send by another thread and
--   the string it is given), Poller (Poller.cpp), LoopPool (EventLoopThreadPool.cpp), EventLoop
--   (EventLoop.cpp; EventLoop/Rounds lets the loop's thread and those that queue for it take steps
--   in any order), Address (InetAddress.cpp), Server (TcpServer.cpp and the handler of
--   Acceptor.cpp), LoopThread (EventLoopThread.cpp, with the steps of both threads).
-- Pool: mysql/Connectionpool.cpp. The critical sections of its threads are functions, and the
--   relation `Step` lets them run in any order. Pool/Settings has `loadConfigFile`.
-- Redis: utils/redis.cpp, with hiredis as a record of operations.
-- Client: client.cpp. Requests has the JSON texts that it sends, Commands the menu after the login,
--   Responses the second thread, Session the menu of `main`, Startup what comes before it.
-- EndToEnd: what the two sides, or two servers, do together.
-- Tests: a small platform, and runs of the components on concrete inputs.
--
-- Choices. A C++ `int` is an integer without bounds where nothing is computed with it, and a
-- `size_t` is a natural number whose sums and differences are taken modulo 2^64. A buffer holds
-- fewer than 2^63 bytes. `std::unordered_map` is an association list, whose order stands for the
-- order of iteration. A string is a list of bytes; the statements' arrays have 1024 bytes and a
-- longer text is a buffer overrun. To pass a string object to `%s`, as `UserModel::insert` and
-- `OfflineMsgModel::insert` do, is undefined behaviour, which ends a handler. Only the write loop of
-- `Redis::subscribe` runs on fuel: no number of rounds bounds it, since hiredis may write nothing in
-- a round. Every other loop runs over a list or counts down. `NextConnId` ends in undefined
-- behaviour when it would overflow. `dump` throws on an object with a text that is not UTF-8: where
-- an object has texts of the user or of the database, the model tests it before it is printed;
-- acknowledgements and objects that were parsed have no such text.
--
-- Not modelled: the interleaving of the client's two threads, the destructor of a loop, Thread and
-- CurrentThread, the calls of sockets, a failed `cin` of the client, and a reply of Redis other than
-- an array. A call of a handler is one step of its thread, so what another thread does inside a
-- model class or inside `send` is left out, as is the pool's limit on the connections that threads
-- wait for. The interest of a connection's channel changes in Net/Connection without the system
-- call, which Net/Poller models apart. Output of the server on its console is left out.
pub mod Prelude
pub mod Platform
pub mod World
pub mod Model
pub mod Service
pub mod Net
pub mod Pool
pub mod Redis
pub mod Client
pub mod EndToEnd
pub mod Tests
