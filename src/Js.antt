-- ===== src/Js.antt =====
-- Asynchronous JavaScript code as data: a process is what is left to do of a call of an async
-- function, and an environment answers what it asks. `Ensures` is the logic for it.
pub mod Process
pub mod Template
pub mod Run
pub mod Ends
pub mod Completed
pub mod Ensures
pub mod Sequence
pub mod Within
