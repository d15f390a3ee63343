-- ===== src/Commands.antt =====
-- internal/commands: the commands of homura that run in a VM.
pub mod Run
pub mod Quoted
pub mod Target
pub mod Places
pub mod Where
pub mod Table
mod Tests
