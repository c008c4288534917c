-- ===== src/Bfd.antt =====
-- keepalived/bfd: the BFD process, one module to each part of bfd.c, bfd_data.c, bfd_event.c and
-- bfd_scheduler.c.
pub mod ByteOrder
pub mod Diag
pub mod Session
pub mod Random
pub mod State
pub mod Packet
pub mod Timers
pub mod Socket
pub mod Machine
pub mod Handle
pub mod Workers
pub mod System
mod Tests
