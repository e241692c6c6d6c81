-- ===== src/Cli.antt =====
-- commands/: the commands of the runtime, before they reach a container.
pub mod Update
pub mod Args
pub mod Events
pub mod Lifecycle
pub mod Show
pub mod Dispatch
pub mod Refused
pub mod Written
