-- ===== src/Tests.antt =====
-- A library, a governor and a configuration with which the theorems are applied, and that they are.
mod Instances
mod Names
mod Configs
mod Reading
mod Serving
mod Starting
mod Probing
mod Overlaps
