-- ===== src/Tests.antt =====
-- Runs of the models on concrete inputs.
mod Files
mod Probing
mod Echoing
mod Nominating
mod Gathering
mod Tunnelling
mod Polling
mod Pairing
mod Redacting
mod Attempting
mod Devices
mod Paths
mod Starting
mod Listening
