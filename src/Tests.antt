-- ===== src/Tests.antt =====
-- Concrete environments and inputs, and the theorems at them.
mod Fake
mod Ids
mod Methods
mod Calls
mod Creation
mod Deletion
mod Publication
mod Session
mod Files
mod Running
mod Rotation
mod Store
mod Mounting
