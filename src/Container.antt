-- ===== src/Container.antt =====
-- container/: the life of a container, from its creation to its deletion.
pub mod Fifo
pub mod Userns
pub mod Mapped
pub mod Hooks
pub mod Commands
pub mod Create
pub mod Spawn
pub mod Created
pub mod Undone
pub mod Taken
pub mod Run
pub mod ExecTarget
pub mod ExecRun
pub mod ExecUser
pub mod ExecAllowed
pub mod Capabilities
pub mod Signals
pub mod Process
pub mod Seccomp
pub mod Console
pub mod Init
pub mod Reaped
pub mod Supervised
pub mod Guards
pub mod Progress
pub mod HookRuns
