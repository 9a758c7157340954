-- ===== src/Lab1/Wiring.antt =====
-- What lab1/src/main.cpp gives to its services.
pub mod Recipients
pub mod Flags
pub mod Snapshots
