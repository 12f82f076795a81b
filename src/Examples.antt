-- ===== src/Examples.antt =====
-- The theorems at concrete inputs, and runs of the definitions.
mod Alu
mod Serial
mod Board
mod Programs
mod Boards
mod Serials
pub mod Mmu
pub mod Exceptions
pub mod Ports
