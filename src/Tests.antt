-- ===== src/Tests.antt =====
-- An example volume, runs of the code on it, and the theorems applied to it.
pub mod Fixture
mod Runs
mod Machine
pub mod Volume
mod Witnesses
mod Directories
pub mod Slabs
mod Kernel
mod Writing
mod Reuse
mod Console
mod Boot
pub mod Entering
mod Keeping
