-- ===== src/RandomDeck.antt =====
-- apps/api/src/decks/random-deck: the generator of random decks and its service. The definitions
-- stand in Draft, Catalog, Shuffle, Lines, Trainers, Generator,
-- Choice and Service; the other modules prove.
pub mod Draft
pub mod Grown
pub mod Pooled
pub mod Rooms
pub mod Limits
pub mod Catalog
pub mod Shuffle
pub mod Lines
pub mod Trainers
pub mod Generator
pub mod Choice
pub mod Service
