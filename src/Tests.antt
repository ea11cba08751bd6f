-- ===== src/Tests.antt =====
-- A scope with two agents, a task of each kind, and messages between the agents; each general
-- statement is applied in it.
pub mod Scene
pub mod Bus
pub mod Mail
pub mod Pages
pub mod Repeats
pub mod Work
pub mod Streams
pub mod Readers
