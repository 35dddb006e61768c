-- ===== src/Tests.antt =====
-- Tests on concrete inputs, and the theorems at inputs that meet their hypotheses.
mod Players
mod Hosts
mod Messages
mod Engine
mod Payloads
mod Transport
mod Settings
mod Bridge
mod Logs
mod Hosted
mod Shutdown
