-- ===== src/SessionFiles.antt =====
-- src/control/file_config.rs: session policies in files of a trusted directory, with their imports.
pub mod Errors
pub mod Imports
pub mod Access
pub mod Merge
pub mod Compose
pub mod Fine
pub mod Loaded
pub mod Composed
pub mod MergeEnds
pub mod Rounds
pub mod Trusted
