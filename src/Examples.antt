-- ===== src/Examples.antt =====
-- Tests, and the theorems at concrete inputs.
mod Structures
mod Sectors
mod Writes
mod Chains
mod Damage
mod Machine
mod Loops
mod Parents
mod Conversions
mod CommandLines
