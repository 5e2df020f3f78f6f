-- ===== src/Meta.antt =====
-- packages/meta: the version that the build derives from git.
pub mod Version
pub mod Describe
pub mod Package
pub mod Resource
pub mod Release
mod Plain
mod Examples
