-- ===== src/Server.antt =====
-- bins/pos-server: the access control in front of the dispatcher.
pub mod Acl
