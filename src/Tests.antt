-- ===== src/Tests.antt =====
-- Runs of the definitions on concrete inputs, and the theorems at them.
mod Values
mod Policy
mod Authorization
mod Connect
mod Control
mod Http
mod Secrets
mod Session
mod SessionFiles
mod Settings
mod Telemetry
