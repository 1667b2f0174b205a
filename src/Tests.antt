-- ===== src/Tests.antt =====
-- Concrete nodes, packets and memories on which the theorems are applied.
pub mod Data
mod Line
mod Store
mod Drive
mod System
mod Whole
mod Inquiry
mod Sleep
mod Steps
mod Wire
mod Bus
