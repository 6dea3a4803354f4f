-- ===== src/Chips/Awards.antt =====
-- Awards, rake and the end of a hand: what the pot loses against what the stacks receive.
use pace_poker.Prelude.{
  ℕ, suc, ◌+◌, ◌*◌, ◌/◌, ◌%◌, ◌<◌, Int64, String, List, [], ◌∷◌, Option, none, some, ◌≡◌, refl, ap,
  arith, ◌∙◌, add64, sub64, div64, mod64, m64, h64, length,
}
use native.Mathlib.Nat.{div-add-mod}
use pace_poker.Proto.{PlayerState, HandState, GameState}
use pace_poker.Players.{get, adjust, total}
use pace_poker.Players.Laws.{total-adjust-some, total-adjust-none}
use pace_poker.Chips.Account.{chips, stack_of, pot_of, paid, paid_all, award_paid, from_pot}
use pace_poker.Apply.Seats.{add_stack}
use pace_poker.Apply.Street.{on_hand}
use pace_poker.Apply.Cases.{in_hand_cases}
use pace_poker.Apply.Pots.{pay_share, apply_pot_awarded, apply_rake_taken, apply_hand_ended}

-- One payment raises the sum of the stacks by what is paid, modulo 2 ^ 64.
pub total-add_stack :
    (w : String) (x : Int64) (ps : List (String × PlayerState))
    → total stack_of (adjust w (add_stack x) ps) % m64
      ≡ (total stack_of ps + paid (get w ps) x) % m64
total-add_stack w x ps = go (get w ps) refl
  where
    go :
        (o : Option PlayerState)
        → get w ps ≡ o
        → total stack_of (adjust w (add_stack x) ps) % m64 ≡ (total stack_of ps + paid o x) % m64
    go none e = omega (arith, total-adjust-none stack_of w (add_stack x) ps e)
    go (some p) e = omega (arith, total-adjust-some stack_of w (add_stack x) p ps e)

-- A payment does not change who is in the map.
paid-add_stack :
    (v w : String) (x y : Int64) (ps : List (String × PlayerState))
    → paid (get v (adjust w (add_stack x) ps)) y ≡ paid (get v ps) y
paid-add_stack v w x y [] = refl
paid-add_stack v w x y ((j, p) ∷ ps) = ground (arith, paid-add_stack v w x y ps)

paid_all-add_stack :
    (w : String) (x y : Int64) (vs : List String) (ps : List (String × PlayerState))
    → paid_all y vs (adjust w (add_stack x) ps) ≡ paid_all y vs ps
paid_all-add_stack w x y [] ps = refl
paid_all-add_stack w x y (v ∷ vs) ps =
    omega (arith, paid-add_stack v w x y ps, paid_all-add_stack w x y vs ps)

total-pay_share :
    (x : Int64) (ws : List String) (ps : List (String × PlayerState))
    → total stack_of (pay_share x ws ps) % m64 ≡ (total stack_of ps + paid_all x ws ps) % m64
total-pay_share x [] ps = omega arith
total-pay_share x (w ∷ ws) ps = omega (
  arith,
  total-pay_share x ws (adjust w (add_stack x) ps),
  total-add_stack w x ps,
  paid_all-add_stack w x x ws ps,
)

-- A change of the hand that takes `x` from its pot.
on_hand-pot :
    (f : HandState → HandState) (t : GameState) (x : Int64)
    → ((h : HandState) → (f h).pot ≡ sub64 h.pot x)
    → chips (on_hand f t)
      ≡ sub64 (total stack_of t.players + pot_of t.current_hand) (from_pot t.current_hand x)
unfolding chips
on_hand-pot f t x fewer =
    in_hand_cases
      (λ r.
        chips r
        ≡ sub64 (total stack_of t.players + pot_of t.current_hand) (from_pot t.current_hand x))
      t (λ h. record t { current_hand = some (f h) })
      (λ e. omega (arith, ap pot_of e, ap (λ (o : Option HandState). from_pot o x) e))
      (λ h e. omega (arith, fewer h, ap pot_of e, ap (λ (o : Option HandState). from_pot o x) e))

pub rake_taken-chips :
    (x : Int64) (s : GameState)
    → chips (apply_rake_taken x s) ≡ add64 (chips s) (sub64 0 (from_pot s.current_hand x))
unfolding apply_rake_taken
rake_taken-chips x s =
    on_hand-pot (λ h. record h { rake_taken = add64 h.rake_taken x; pot = sub64 h.pot x }) s x
      (λ h. refl)
    ∙ unfold chips in omega arith

pub hand_ended-chips :
    (n : Int64) (s : GameState)
    → chips (apply_hand_ended n s) ≡ add64 (chips s) (sub64 0 (pot_of s.current_hand))
unfolding apply_hand_ended chips
hand_ended-chips n s = omega arith

-- The stacks after an award hold what it pays to the winners that are found.
pub award-stacks :
    (x : Int64) (w : String) (ws : List String) (ps : List (String × PlayerState))
    → let n = length (w ∷ ws) in
      let first = add64 (div64 x n) (mod64 x n) in
      total stack_of (pay_share (div64 x n) ws (adjust w (add_stack first) ps)) % m64
      ≡ (total stack_of ps + award_paid x (w ∷ ws) ps) % m64
award-stacks x w ws ps =
    let n = length (w ∷ ws) in
    let first = add64 (div64 x n) (mod64 x n) in
    omega (
      arith,
      total-pay_share (div64 x n) ws (adjust w (add_stack first) ps),
      total-add_stack w first ps,
      paid_all-add_stack w first (div64 x n) ws ps,
    )

pub pot_awarded-chips :
    (x : Int64) (w : String) (ws : List String) (s : GameState)
    → chips (apply_pot_awarded x (w ∷ ws) s)
      ≡ add64 (chips s) (sub64 (award_paid x (w ∷ ws) s.players) (from_pot s.current_hand x))
unfolding apply_pot_awarded
pot_awarded-chips x w ws s =
    on_hand-pot (λ h. record h { pot = sub64 h.pot x })
      (record s {
        players = pay_share (div64 x (length (w ∷ ws))) ws (
            adjust w (add_stack (add64 (div64 x (length (w ∷ ws))) (mod64 x (length (w ∷ ws)))))
              s.players);
      })
      x (λ h. refl)
    ∙ unfold chips in omega (arith, award-stacks x w ws s.players)

-- Every name of the list has a player.
abbrev pub AllSeated : List String → List (String × PlayerState) → Type 0
AllSeated [] ps = Unit
AllSeated (w ∷ ws) ps = ((p : PlayerState) × (get w ps ≡ some p)) × AllSeated ws ps

paid_all-AllSeated :
    (x : Int64) (ws : List String) (ps : List (String × PlayerState))
    → AllSeated ws ps
    → paid_all x ws ps ≡ x * length ws
paid_all-AllSeated x [] ps h = omega arith
paid_all-AllSeated x (w ∷ ws) ps ((p, e), h) =
    omega (arith, paid_all-AllSeated x ws ps h, ap (λ (o : Option PlayerState). paid o x) e)

split_all : (a n : ℕ) → a / suc n * n + (a / suc n + a % suc n) ≡ a
split_all a n = grind (arith, div-add-mod)

share_sum :
    (x n : ℕ)
    → x < h64
    → (div64 x (suc n) * n + add64 (div64 x (suc n)) (mod64 x (suc n))) % m64 ≡ x
share_sum x n h = ground (arith, split_all x n)

-- Among winners who all have a seat an award of x ≥ 0 pays out exactly its amount.
pub award_paid_exact :
    (x : Int64) (w : String) (ws : List String) (ps : List (String × PlayerState))
    → x < h64
    → AllSeated (w ∷ ws) ps
    → award_paid x (w ∷ ws) ps % m64 ≡ x
award_paid_exact x w ws ps lt ((p, e), h) = omega (
  arith,
  share_sum x (length ws) lt,
  paid_all-AllSeated (div64 x (suc (length ws))) ws ps h,
  ap
      (λ (o : Option PlayerState).
        paid o (add64 (div64 x (suc (length ws))) (mod64 x (suc (length ws)))))
      e,
)

-- With a hand in progress and every winner seated, an award of x ≥ 0 moves chips from the pot to
-- the stacks and keeps their sum.
pub pot_awarded_moves :
    (x : Int64) (w : String) (ws : List String) (s : GameState) (h : HandState)
    → x < h64
    → s.current_hand ≡ some h
    → AllSeated (w ∷ ws) s.players
    → chips (apply_pot_awarded x (w ∷ ws) s) ≡ chips s
unfolding chips
pot_awarded_moves x w ws s h lt e seated = omega (
  arith,
  pot_awarded-chips x w ws s,
  award_paid_exact x w ws s.players lt seated,
  ap (λ (o : Option HandState). from_pot o x) e,
)
