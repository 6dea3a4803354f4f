-- ===== src/Chips/Commit.antt =====
-- Blinds, antes, straddles and the actions move chips from a stack to the pot and keep the sum.
use pace_poker.Prelude.{
  Int64, String, Bool, List, Option, none, some, ◌≡◌, refl, ap, arith, ◌∙◌, add64, sub64, ◌⊎◌,
}
use pace_poker.Proto.{PlayerState, HandState, GameState}
use pace_poker.Players.{get, adjust}
use pace_poker.Players.Laws.{total-put, total-adjust}
use pace_poker.Chips.Account.{chips, stack_of, pot_of, all_in_flow}
use pace_poker.Apply.Order.{others_in_order}
use pace_poker.Apply.Street.{on_hand}
use pace_poker.Apply.Cases.{in_hand_cases, in_seat_cases}
use pace_poker.Apply.Betting

-- The sum is kept.
abbrev Same : GameState → GameState → Type 0
Same s t = chips t ≡ chips s

-- What moves from a stack to the pot leaves the sum as it was.
write-chips :
    (s : GameState) (pid : String) (p p' : PlayerState) (h h' : HandState) (d : Int64)
    → get pid s.players ≡ some p
    → s.current_hand ≡ some h
    → p'.stack ≡ sub64 p.stack d
    → h'.pot ≡ add64 h.pot d
    → chips (Betting.write s pid p' h') ≡ chips s
unfolding chips
write-chips s pid p p' h h' d ep eh es eo =
    omega (arith, total-put stack_of pid p' p s.players ep, es, eo, ap pot_of eh)

-- A change of the hand that keeps its pot.
pub on_hand-chips :
    (f : HandState → HandState) (s : GameState)
    → ((h : HandState) → (f h).pot ≡ h.pot)
    → chips (on_hand f s) ≡ chips s
unfolding chips
on_hand-chips f s keep =
    in_hand_cases (λ t. chips t ≡ chips s) s (λ h. record s { current_hand = some (f h) })
      (λ _. refl) (λ h eh. omega (arith, keep h, ap pot_of eh))

pub ante_posted-chips :
    (pid : String) (x : Int64) (s : GameState) → chips (Betting.apply_ante_posted pid x s) ≡ chips s
unfolding Betting.apply_ante_posted
ante_posted-chips pid x s =
    in_seat_cases (Same s) s pid _ (λ _. refl)
      (λ h p eh ep. write-chips s pid p _ h _ x ep eh refl refl)

blind_hand-pot :
    (x : Int64) (big dead : Bool) (bet : Int64) (h : HandState)
    → (Betting.blind_hand x big dead bet h).pot ≡ add64 h.pot x
blind_hand-pot x big dead bet h = ground arith

blind_player-stack :
    (x : Int64) (dead : Bool) (p : PlayerState)
    → (Betting.blind_player x dead p).stack ≡ sub64 p.stack x
blind_player-stack x dead p = ground arith

pub blind_posted-chips :
    (pid : String) (x : Int64) (big dead : Bool) (s : GameState)
    → chips (Betting.apply_blind_posted pid x big dead s) ≡ chips s
unfolding Betting.apply_blind_posted
blind_posted-chips pid x big dead s =
    in_seat_cases (Same s) s pid _ (λ _. refl)
      (λ h p eh ep.
        write-chips s pid p _ h _ x ep eh (blind_player-stack x dead p)
          (blind_hand-pot x big dead _ h))

straddle_hand-pot :
    (x bet : Int64) (h : HandState) → (Betting.straddle_hand x bet h).pot ≡ add64 h.pot x
straddle_hand-pot x bet h = ground arith

pub straddle_posted-chips :
    (pid : String) (x : Int64) (s : GameState)
    → chips (Betting.apply_straddle_posted pid x s) ≡ chips s
unfolding Betting.apply_straddle_posted
straddle_posted-chips pid x s =
    in_seat_cases (Same s) s pid _ (λ _. refl)
      (λ h p eh ep. write-chips s pid p _ h _ x ep eh refl (straddle_hand-pot x _ h))

pub player_checked-chips :
    (pid : String) (s : GameState) → chips (Betting.apply_player_checked pid s) ≡ chips s
unfolding Betting.apply_player_checked
player_checked-chips pid s = on_hand-chips (Betting.acted pid) s (λ h. refl)

fold_player-chips :
    (pid : String) (s : GameState)
    → chips (record s { players = adjust pid Betting.fold_player s.players }) ≡ chips s
unfolding chips
fold_player-chips pid s =
    omega (arith, total-adjust stack_of pid Betting.fold_player s.players (λ p. refl))

pub player_folded-chips :
    (pid : String) (s : GameState) → chips (Betting.apply_player_folded pid s) ≡ chips s
unfolding Betting.apply_player_folded
player_folded-chips pid s =
    on_hand-chips (Betting.acted pid) _ (λ h. refl) ∙ fold_player-chips pid s

mark_all_in-stack : (p : PlayerState) → (Betting.mark_all_in p).stack ≡ p.stack
mark_all_in-stack p = ground arith

pub player_called-chips :
    (pid : String) (x : Int64) (s : GameState)
    → chips (Betting.apply_player_called pid x s) ≡ chips s
unfolding Betting.apply_player_called
player_called-chips pid x s =
    in_seat_cases (Same s) s pid _ (λ _. refl)
      (λ h p eh ep. write-chips s pid p _ h _ x ep eh (mark_all_in-stack _) refl)

pend_others-chips : (pid : String) (s : GameState) → chips (Betting.pend_others pid s) ≡ chips s
pend_others-chips pid s =
    on_hand-chips
      (λ h. record h { pending_actions = others_in_order s pid; acting_player_id = none }) s
      (λ h. refl)

pub player_bet-chips :
    (pid : String) (x : Int64) (s : GameState) → chips (Betting.apply_player_bet pid x s) ≡ chips s
unfolding Betting.apply_player_bet
player_bet-chips pid x s =
    in_seat_cases (Same s) s pid _ (λ _. refl)
      (λ h p eh ep.
        pend_others-chips pid _ ∙ write-chips s pid p _ h _ (sub64 x p.current_bet) ep eh refl refl)

pub player_raised-chips :
    (pid : String) (to by : Int64) (s : GameState)
    → chips (Betting.apply_player_raised pid to by s) ≡ chips s
unfolding Betting.apply_player_raised
player_raised-chips pid to by s =
    in_seat_cases (Same s) s pid _ (λ _. refl)
      (λ h p eh ep.
        pend_others-chips pid _
        ∙ write-chips s pid p _ h _ (sub64 to p.current_bet) ep eh (mark_all_in-stack _) refl)

all_in_hand-pot :
    (pid : String) (x : Int64) (others : List String) (h : HandState)
    → (Betting.all_in_hand pid x others h).pot ≡ h.pot
unfolding Betting.all_in_raise
all_in_hand-pot pid x others h = ground arith

-- The sum after an all-in, the part of `all_in_hand` aside.
all_in_write :
    (pid : String) (x : Int64) (s : GameState) (h h' : HandState) (p : PlayerState)
    → s.current_hand ≡ some h
    → get pid s.players ≡ some p
    → h'.pot ≡ add64 h.pot (sub64 x p.current_bet)
    → chips (Betting.write s pid (Betting.all_in_player x p) h')
      ≡ add64 (chips s) (all_in_flow s.current_hand (get pid s.players) x)
unfolding chips
all_in_write pid x s h h' p eh ep eo =
    rw
      (ap (λ (o : Option HandState). all_in_flow o (get pid s.players) x) eh
        ∙ ap (λ (o : Option PlayerState). all_in_flow (some h) o x) ep)
      (omega (
        arith,
        total-put stack_of pid (Betting.all_in_player x p) p s.players ep,
        eo,
        ap pot_of eh,
      ))

no_all_in :
    (x : Int64) (o : Option HandState) (q : Option PlayerState)
    → (o ≡ none) ⊎ (q ≡ none)
    → all_in_flow o q x ≡ 0
no_all_in x none q e = refl
no_all_in x (some h) none e = refl
no_all_in x (some h) (some p) e = ground arith

-- An all-in takes the whole stack and pays the pot `x` less the current bet.
pub player_all_in-chips :
    (pid : String) (x : Int64) (s : GameState)
    → chips (Betting.apply_player_all_in pid x s)
      ≡ add64 (chips s) (all_in_flow s.current_hand (get pid s.players) x)
unfolding Betting.apply_player_all_in
player_all_in-chips pid x s =
    in_seat_cases
      (λ t. chips t ≡ add64 (chips s) (all_in_flow s.current_hand (get pid s.players) x)) s pid _
      (λ e. rw (no_all_in x s.current_hand (get pid s.players) e) (unfold chips in omega arith))
      (λ h p eh ep.
        let h1 = record h { pot = add64 h.pot (sub64 x p.current_bet) } in
        let others = others_in_order (Betting.write s pid (Betting.all_in_player x p) h1) pid in
        all_in_write pid x s h (Betting.all_in_hand pid x others h1) p eh ep
          (all_in_hand-pot pid x others h1))
