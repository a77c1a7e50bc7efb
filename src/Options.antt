-- ===== src/Options.antt =====
-- src/buildstream/_options: the options of a project, their values and the pool of them.
pub mod Texts
pub mod Nodes
pub mod Arch
pub mod Kinds
pub mod Pool
pub mod Tables
pub mod Validity
pub mod Configured
