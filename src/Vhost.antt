-- ===== src/Vhost.antt =====
-- vhost/tx.c, which sends one packet on a virtio-user port, and vhost/vhost.c, which receives packets on
-- a vhost-user port and frees them.
pub mod Programs
pub mod Owners
mod Tests
