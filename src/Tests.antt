-- ===== src/Tests.antt =====
-- Theorems at concrete inputs, and runs of the program, module by module.
mod Samples
mod Startup
mod Logins
mod Formatting
mod Channels
mod Lines
mod Modes
mod Exchange
mod Rounds
mod Handlers
