-- ===== src/Streets/Turns.antt =====
-- The fold flag and the next street's order (internal/engine/apply.go), and the turn of a player who
-- has folded (internal/engine/validate_actions.go).
use pace_poker.Prelude.{
  ℕ, String, Bool, List, [], ◌∷◌, ◌≡◌, refl, sym, ap, arith, ◌∙◌, keep, map, sort_by, insert_by,
  inl, inr, Bool-cases, lt32,
}
use pace_poker.Proto.{PlayerState, GameState}
use pace_poker.Players.{adjust}
use pace_poker.Apply.Cases.{in_hand_cases}
use pace_poker.Apply.Order.{
  rotate_after, can_be_dealt, seated_active_players_by_seats, postflop_action_order,
}
use pace_poker.Apply.Betting.{fold_player, apply_player_folded}

abbrev Seated : Type 0
Seated = String × PlayerState

-- The same players in the same seats, whatever else has changed of them.
abbrev SameSeats : List Seated → List Seated → Type 0
SameSeats [] [] = Unit
SameSeats ((j, p) ∷ ps) ((k, q) ∷ qs) =
    (j ≡ k) × (p.seat ≡ q.seat) × (can_be_dealt p ≡ can_be_dealt q) × SameSeats ps qs
SameSeats _ _ = ⊥

dealt : Seated → Bool
dealt e = can_be_dealt e.1

before : Seated → Seated → Bool
before a b = lt32 a.1.seat b.1.seat

SameSeats-refl : (ps : List Seated) → SameSeats ps ps
SameSeats-refl [] = tt
SameSeats-refl ((j, p) ∷ ps) = (refl, refl, refl, SameSeats-refl ps)

SameSeats-fold : (pid : String) (ps : List Seated) → SameSeats (adjust pid fold_player ps) ps
SameSeats-fold pid [] = tt
SameSeats-fold pid ((j, p) ∷ ps) = ground (arith, SameSeats-fold pid ps, SameSeats-refl ps)

SameSeats-keep : (ps qs : List Seated) → SameSeats ps qs → SameSeats (keep dealt ps) (keep dealt qs)
unfolding dealt
SameSeats-keep [] [] h = tt
SameSeats-keep [] (q ∷ qs) h = absurd h
SameSeats-keep (p ∷ ps) [] h = absurd h
SameSeats-keep ((j, p) ∷ ps) ((k, q) ∷ qs) h = elim (Bool-cases (can_be_dealt p)) [
  | inl e ↦ rw (e, sym h.2 ∙ e) (h.0, h.1, h.2, SameSeats-keep ps qs h.3)
  | inr e ↦ rw (e, sym h.2 ∙ e) (SameSeats-keep ps qs h.3)
]

SameSeats-insert :
    (p q : Seated) (ps qs : List Seated)
    → SameSeats (p ∷ ps) (q ∷ qs)
    → SameSeats (insert_by before p ps) (insert_by before q qs)
unfolding before
SameSeats-insert p q [] [] h = h
SameSeats-insert p q [] (y ∷ ys) h = absurd h.3
SameSeats-insert p q (x ∷ xs) [] h = absurd h.3
SameSeats-insert (i, p) (l, q) ((j, x) ∷ xs) ((k, y) ∷ ys) (a, b, c, (d, e, f, g)) =
    elim (Bool-cases (lt32 x.seat p.seat)) [
      | inl lt ↦
          rw
            (lt, ap (λ (n : ℕ). lt32 y.seat n) (sym b) ∙ ap (λ (n : ℕ). lt32 n p.seat) (sym e) ∙ lt)
            (d, e, f, SameSeats-insert (i, p) (l, q) xs ys (a, b, c, g))
      | inr ge ↦
          rw
            (ge, ap (λ (n : ℕ). lt32 y.seat n) (sym b) ∙ ap (λ (n : ℕ). lt32 n p.seat) (sym e) ∙ ge)
            (a, b, c, (d, e, f, g))
    ]

SameSeats-sort :
    (ps qs : List Seated) → SameSeats ps qs → SameSeats (sort_by before ps) (sort_by before qs)
SameSeats-sort [] [] h = tt
SameSeats-sort [] (q ∷ qs) h = absurd h
SameSeats-sort (p ∷ ps) [] h = absurd h
SameSeats-sort ((j, p) ∷ ps) ((k, q) ∷ qs) h =
    SameSeats-insert (j, p) (k, q) (sort_by before ps) (sort_by before qs)
      (h.0, h.1, h.2, SameSeats-sort ps qs h.3)

SameSeats-ids : (ps qs : List Seated) → SameSeats ps qs → map (λ e. e.0) ps ≡ map (λ e. e.0) qs
SameSeats-ids [] [] h = refl
SameSeats-ids [] (q ∷ qs) h = absurd h
SameSeats-ids (p ∷ ps) [] h = absurd h
SameSeats-ids ((j, p) ∷ ps) ((k, q) ∷ qs) h = cc (h.0, SameSeats-ids ps qs h.3)

-- Folding does not take a player out of the next street's order: the order that `resetStreetState`
-- computes is the same before and after a fold, by any player, in any state.
pub postflop_order-fold :
    (pid dealer : String) (s : GameState)
    → postflop_action_order (apply_player_folded pid s) dealer ≡ postflop_action_order s dealer
unfolding postflop_action_order seated_active_players_by_seats apply_player_folded dealt before
postflop_order-fold pid dealer s =
    ap (λ (ids : List String). rotate_after ids dealer)
      (in_hand_cases (λ r. seated_active_players_by_seats r ≡ seated_active_players_by_seats s)
        (record s { players = adjust pid fold_player s.players }) _ (λ _. same) (λ h _. same))
  where
    same :
        map (λ e. e.0) (sort_by before (keep dealt (adjust pid fold_player s.players)))
        ≡ map (λ e. e.0) (sort_by before (keep dealt s.players))
    same =
        SameSeats-ids _ _ (SameSeats-sort _ _ (SameSeats-keep _ _ (SameSeats-fold pid s.players)))
