-- ===== src/Action.antt =====
-- What a service method is: an action on the tables that it can reach, and the rules to reason
-- about actions.
mod Defs
mod Triples
mod Inversion
mod Outcomes
pub use Defs.*
pub use Triples.*
pub use Inversion.*
pub use Outcomes.*
