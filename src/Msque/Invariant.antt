-- ===== src/Msque/Invariant.antt =====
-- What the locals of each thread say about the shared list, and that each access keeps it.
mod Defs
mod Moves
mod Steps
pub use Defs.*
pub use Steps.*
