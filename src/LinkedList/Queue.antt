-- ===== src/LinkedList/Queue.antt =====
-- `push`, `pushOrdered` and `pop` on a well-formed list, against the sequence of its threads.
mod Links
mod Walk
mod Insert
mod Pop
pub use Links.*
pub use Walk.*
pub use Insert.*
pub use Pop.*
