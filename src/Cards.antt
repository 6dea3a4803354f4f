-- ===== src/Cards.antt =====
-- internal/deck/deck.go and internal/engine/dealer.go: the deck, its shuffle and the dealers.
pub mod Deck
pub mod Dealer
