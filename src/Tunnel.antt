-- ===== src/Tunnel.antt =====
-- tunnel.go: the supervision of the WireGuard device: its statistics, and the choice of endpoints.
pub mod Stats
pub mod Recovery
pub mod Retry
pub mod Switching
pub mod Supervisor
