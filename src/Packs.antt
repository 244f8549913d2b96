-- ===== src/Packs.antt =====
-- Booster packs: odds, generator, randomness and the opening (apps/api/src/packs,
-- packages/shared/src/packs).
pub mod Ladder
pub mod Generator
pub mod Pool
pub mod Rng
pub mod Opening
