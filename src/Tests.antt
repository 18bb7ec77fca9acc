-- ===== src/Tests.antt =====
-- Concrete inputs: runs of the modelled code, and the theorems applied to them.
mod Slots
mod Caches
mod Plans
mod Managers
mod Handlers
mod Files
mod Settings
mod Transfers
mod Reactors
