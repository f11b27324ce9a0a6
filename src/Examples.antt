-- ===== src/Examples.antt =====
-- Tests of the definitions, and the theorems at concrete inputs.
mod Tables
mod Queues
mod Runs
mod Lines
mod Streams
mod Directory
mod Jobs
mod Disconnects
mod Steps
mod Loops
mod Starting
mod Workers
mod Interleaved
mod Cells
mod Nodes
mod Races
