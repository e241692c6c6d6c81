-- ===== src/Container/Init.antt =====
-- container/init.rs: the process that becomes the container, from its fork to its program. The
-- recorder of the phases' times decides nothing: what it took is an argument of the two stages.
pub mod Joining
pub mod Securing
pub mod Main
pub mod Ordered
pub mod Isolated
pub mod Entered
