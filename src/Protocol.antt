-- ===== src/Protocol.antt =====
-- The reliable datagrams of the folder protocol: packets, the modules that a packet passes, and the
-- connection that chains them.
pub mod SlideWindow
pub mod Packet
pub mod Modules
pub mod Transfer
