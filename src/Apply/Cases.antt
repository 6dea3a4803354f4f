-- ===== src/Apply/Cases.antt =====
-- How a proof goes through the guards of `Apply`: what holds of the unchanged state and of every
-- state that the guarded body builds holds of the result.
use pace_poker.Prelude.{String, Option, none, some, ◌≡◌, refl, sym, ◌⊎◌, inl, inr}
use pace_poker.Proto.{PlayerState, HandState, GameState}
use pace_poker.Players.{get}
use pace_poker.Apply.Street.{in_hand}
use pace_poker.Apply.Betting.{in_seat}

-- The state with its hand written out is the state.
pub with_hand :
    (s : GameState) (h : HandState)
    → s.current_hand ≡ some h
    → record s { current_hand = some h } ≡ s
with_hand s h e = λ i. record s { current_hand = sym e i }

module _ {ℓ} (P : GameState → Type ℓ) (s : GameState) where
  pub in_hand_cases :
      (k : HandState → GameState)
      → (s.current_hand ≡ none → P s)
      → ((h : HandState) → s.current_hand ≡ some h → P (k h))
      → P (in_hand s k)
  in_hand_cases k no_hand with_hand = go s.current_hand refl
    where
      go : (o : Option HandState) → s.current_hand ≡ o → P (elim o [ none ↦ s | some h ↦ k h ])
      go none e = no_hand e
      go (some h) e = with_hand h e

  seat_cases :
      (pid : String) (k : PlayerState → GameState)
      → (get pid s.players ≡ none → P s)
      → ((p : PlayerState) → get pid s.players ≡ some p → P (k p))
      → P (elim (get pid s.players) [ none ↦ s | some p ↦ k p ])
  seat_cases pid k none_case some_case = go (get pid s.players) refl
    where
      go : (o : Option PlayerState) → get pid s.players ≡ o → P (elim o [ none ↦ s | some p ↦ k p ])
      go none e = none_case e
      go (some p) e = some_case p e

  pub in_seat_cases :
      (pid : String) (k : HandState → PlayerState → GameState)
      → ((s.current_hand ≡ none) ⊎ (get pid s.players ≡ none) → P s)
      → ((h : HandState) (p : PlayerState)
          → s.current_hand ≡ some h
          → get pid s.players ≡ some p
          → P (k h p))
      → P (in_seat s pid k)
  in_seat_cases pid k unchanged body =
      in_hand_cases (λ h. elim (get pid s.players) [ none ↦ s | some p ↦ k h p ])
        (λ e. unchanged (inl e))
        (λ h eh. seat_cases pid (k h) (λ e. unchanged (inr e)) (λ p ep. body h p eh ep))
