-- ===== src/Tests.antt =====
-- Concrete runs of the program, to which the theorems apply.
mod Resolution
mod Calls
mod Queries
mod Archives
mod Capable
mod Tokens
mod Graph
mod Orchestration
mod Queues
mod Work
mod Lifecycle
mod Arguments
mod Submission
mod Keys
