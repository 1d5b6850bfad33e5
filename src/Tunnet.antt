-- ===== src/Tunnet.antt =====
-- internal/tunnet: the userspace network stack. The gVisor stack itself is a third-party library;
-- the outcome of each call of it that can fail is an argument.
pub mod Mtu
