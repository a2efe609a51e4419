-- ===== src/Exec/Rules.antt =====
-- Rules for actions, one for each way to build one: what an action returns (`Yields`), what it
-- keeps whether it returns or raises (`Keeps`), how much it adds to a count (`Costs`), and what
-- holds after it (`Meets`).
mod Values
mod Invariants
mod Counts
mod Conditions
mod Cleanup
pub use Values.*
pub use Invariants.*
pub use Counts.*
pub use Conditions.*
pub use Cleanup.*
