-- ===== src/Examples.antt =====
-- Concrete runs of the program: a small world, and the theorems at its states.
mod World
mod Trading
mod Stock
mod Members
mod Opening
mod Composing
mod Dealing
mod Sweeping
