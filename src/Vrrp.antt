-- ===== src/Vrrp.antt =====
-- keepalived/vrrp: the process that speaks VRRP (RFC 3768 and RFC 5798).
pub mod Instance
pub mod Timers
pub mod Transition
pub mod Backup
pub mod Master
pub mod Dispatch
pub mod Fault
pub mod Priority
pub mod System
pub mod Sync
pub mod Script
pub mod Checksum
pub mod Packet
pub mod Advert
mod Tests
