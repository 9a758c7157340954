-- ===== src/Lab1/Tests.antt =====
-- lab1/src/part1 and part2 at concrete inputs: a run of two processes, and the theorems applied to it.
mod Scene
mod Order
mod Duplicates
mod Sending
mod Snapshots
mod Starting
