-- ===== src/Correct.antt =====
-- The internal form that Source/InternalForm/Generator.cpp makes, run as in
-- Source/InternalForm/InternalForm.cpp, against the meaning of the scheme.
pub mod Settles
pub mod Run
pub mod Tuples
pub mod Goal
pub mod Leaf
pub mod Compose
pub mod Branch
pub mod Fork
pub mod Cases
pub mod Simulation
pub mod Table
pub mod Measure
pub mod Nodes
pub mod Visit
pub mod Generate
pub mod Predicate
pub mod Whole
mod Tests
