-- ===== src/Legal/Solvent.antt =====
-- No accepted action takes more from a stack than it holds (internal/engine/validate_actions.go,
-- handler.go and apply.go together).
use pace_poker.Prelude.{
  ℕ, ◌-◌, ◌<◌, ◌≤◌, Int64, String, Option, none, some, ◌≡◌, ap, sym, ◌∙◌, arith, sub64, m64, h64,
}
use pace_poker.Proto.{PlayerState, GameState}
use pace_poker.Players.{get, adjust}
use pace_poker.Players.Laws.{get-put_self, get-adjust_self}
use pace_poker.Chips.Account.{held}
use pace_poker.Apply.Cases.{in_hand_cases, in_seat_cases}
use pace_poker.Apply.Betting

-- The player is still there, with a stack that has not grown: nothing was taken below zero.
abbrev pub Pays : String → PlayerState → GameState → Type 0
Pays actor p t = (q : PlayerState) × (get actor t.players ≡ some q) × (q.stack ≤ p.stack)

abbrev bet_held : Option PlayerState → ℕ
bet_held none = 0
bet_held (some q) = q.current_bet

module _ (actor : String) (p : PlayerState) (s : GameState)
    (ep : get actor s.players ≡ some p) where
  stays : Pays actor p s
  stays = (p, ep, omega arith)

  same_stack : (q : PlayerState) → get actor s.players ≡ some q → q.stack ≡ p.stack
  same_stack q eq = ap held (sym eq ∙ ep)

  pub called-Pays :
      (x : Int64)
      → x ≤ p.stack
      → p.stack < h64
      → Pays actor p (Betting.apply_player_called actor x s)
  unfolding Betting.apply_player_called
  called-Pays x le small =
      in_seat_cases (Pays actor p) s actor _ (λ _. stays)
        (λ g q eg eq. (_, get-put_self actor _ s.players, ground (arith, same_stack q eq)))

  pub bet-Pays :
      (x : Int64)
      → p.current_bet ≤ x
      → x - p.current_bet ≤ p.stack
      → x < m64
      → p.stack < h64
      → Pays actor p (Betting.apply_player_bet actor x s)
  unfolding Betting.apply_player_bet
  bet-Pays x lo le lx small =
      in_seat_cases (Pays actor p) s actor _ (λ _. stays)
        (λ g q eg eq. (_, get-put_self actor _ s.players, paid q eq))
    where
      paid :
          (q : PlayerState)
          → get actor s.players ≡ some q
          → sub64 q.stack (sub64 x q.current_bet) ≤ p.stack
      paid q eq = omega (arith, same_stack q eq, ap bet_held (sym eq ∙ ep))

  pub raised-Pays :
      (x by : Int64)
      → p.current_bet ≤ x
      → x - p.current_bet ≤ p.stack
      → x < m64
      → p.stack < h64
      → Pays actor p (Betting.apply_player_raised actor x by s)
  unfolding Betting.apply_player_raised
  raised-Pays x by lo le lx small =
      in_seat_cases (Pays actor p) s actor _ (λ _. stays)
        (λ g q eg eq. (_, get-put_self actor _ s.players, paid q eq))
    where
      paid :
          (q : PlayerState)
          → get actor s.players ≡ some q
          → (Betting.mark_all_in
              (record (Betting.commit (sub64 x q.current_bet) q) { current_bet = x })).stack
            ≤ p.stack
      paid q eq = ground (arith, same_stack q eq, ap bet_held (sym eq ∙ ep))

  pub all_in-Pays : (x : Int64) → Pays actor p (Betting.apply_player_all_in actor x s)
  unfolding Betting.apply_player_all_in
  all_in-Pays x =
      in_seat_cases (Pays actor p) s actor _ (λ _. stays)
        (λ g q eg eq. (_, get-put_self actor _ s.players, omega arith))

  pub checked-Pays : Pays actor p (Betting.apply_player_checked actor s)
  unfolding Betting.apply_player_checked
  checked-Pays = in_hand_cases (Pays actor p) s _ (λ _. stays) (λ g eg. stays)

  pub folded-Pays : Pays actor p (Betting.apply_player_folded actor s)
  unfolding Betting.apply_player_folded
  folded-Pays =
      in_hand_cases (Pays actor p)
        (record s { players = adjust actor Betting.fold_player s.players }) _ (λ _. folded)
        (λ g eg. folded)
    where
      folded : Pays actor p (record s { players = adjust actor Betting.fold_player s.players })
      folded = (
        Betting.fold_player p,
        get-adjust_self actor Betting.fold_player p s.players ep,
        omega arith,
      )
