-- ===== src/Boot.antt =====
-- agentsessions/bootdir_planting.go: the directory that is planted for a session. Texts are ASCII;
-- the adapter, its BootDirSpec and the answers of the file system are arguments.
pub mod Texts
pub mod Planting
pub mod Cleaning
pub mod Names
pub mod Examples
