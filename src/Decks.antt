-- ===== src/Decks.antt =====
-- What the deck of internal/deck/deck.go promises.
pub mod Shuffle
