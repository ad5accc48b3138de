-- ===== src/Tests.antt =====
-- Runs of the model on one small machine, and the theorems at inputs of it.
mod Sample
mod Scheduling
mod Semaphores
mod Pipes
mod Processes
mod Memory
mod Terminal
mod Text
mod Tron
mod Commands
mod Calls
mod Mvar
mod Video
mod Shell
