-- ===== src/Connection/Traffic/Inbox/Order.antt =====
-- Any events of the traffic, and the queue of one connection, in core/main/connection.cpp and
-- server.cpp.
use mydak_server.ClientIndex.{ClientIndex}
use mydak_server.Server.Logins.{Logins}
use mydak_server.Connection.Traffic.Inbox.{Inbox}
