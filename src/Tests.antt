-- ===== src/Tests.antt =====
-- Runs at concrete inputs, by the part of the program that they exercise.
pub mod World
pub mod Folds
pub mod Epochs
pub mod States
pub mod Node
pub mod Wiring
pub mod Session
pub mod Numbers
pub mod Loop
pub mod MainLoop
pub mod Delivery
pub mod Claims
pub mod Server
