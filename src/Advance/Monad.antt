-- ===== src/Advance/Monad.antt =====
-- A step of internal/engine/advance.go that may deal cards: the dealer's state goes through, and
-- an error leaves the dealer where it was when the error arose.
use pace_poker.Prelude.{String, ◌<>◌}
use pace_poker.Cards.Dealer.{Result, ok, err}

abbrev pub Action : Type 0 → Type 0 → Type 0
Action D A = D → Result A × D

infixl 5 ◌>>=◌ ◌>>◌
abbrev pub ◌>>=◌ : {D A B : Type 0} → Action D A → (A → Action D B) → Action D B
◌>>=◌ m f d = let (r, d') = m d in elim r [ ok a ↦ f a d' | err e ↦ (err e, d') ]

abbrev pub ◌>>◌ : {D A B : Type 0} → Action D A → Action D B → Action D B
m >> k = m >>= λ _. k

abbrev pub pure : {D A : Type 0} → A → Action D A
pure a d = (ok a, d)

-- `fmt.Errorf("…: %w", err)`.
abbrev pub wrapping : {D A : Type 0} → String → Action D A → Action D A
wrapping text m d =
    let (r, d') = m d in elim r [ ok a ↦ (ok a, d') | err e ↦ (err (text <> ": " <> e), d') ]
