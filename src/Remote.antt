-- ===== src/Remote.antt =====
-- silog_comm/src/silog_remote.c: the remote log service. `Wire` is the format of an entry on the
-- network, `Server` the clients of the daemon, `Client` the receiver in silogcat.
pub mod Wire
pub mod Server
pub mod Client
