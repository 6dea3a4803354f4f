-- ===== src/Chips/Seats.antt =====
-- Who joins, leaves, is topped up or sits out: what each brings to the table.
use pace_poker.Prelude.{
  ◌+◌, ◌%◌, Int32, Int64, String, List, Option, none, some, ◌≡◌, refl, arith, add64, sub64, m64,
}
use pace_poker.Proto.{PlayerState, GameState}
use pace_poker.Players.{get, put, delete, adjust, total}
use pace_poker.Players.Laws.{
  total-put, total-put_new, total-delete, total-delete_absent, total-adjust, total-adjust-some,
  total-adjust-none,
}
use pace_poker.Chips.Account.{chips, stack_of, paid, held, reset_flow}
use pace_poker.Chips.Awards.{total-add_stack}
use pace_poker.Apply.Seats.{
  new_player, apply_player_joined, apply_player_left, on_player, set_stack, add_stack,
}

stacks-put :
    (k : String) (v : PlayerState) (ps : List (String × PlayerState))
    → total stack_of (put k v ps) + held (get k ps) ≡ total stack_of ps + v.stack
stacks-put k v ps = go (get k ps) refl
  where
    go :
        (o : Option PlayerState)
        → get k ps ≡ o
        → total stack_of (put k v ps) + held o ≡ total stack_of ps + v.stack
    go none e = omega (arith, total-put_new stack_of k v ps e)
    go (some old) e = total-put stack_of k v old ps e

stacks-delete :
    (k : String) (ps : List (String × PlayerState))
    → total stack_of (delete k ps) + held (get k ps) ≡ total stack_of ps
stacks-delete k ps = go (get k ps) refl
  where
    go :
        (o : Option PlayerState)
        → get k ps ≡ o
        → total stack_of (delete k ps) + held o ≡ total stack_of ps
    go none e = omega (arith, total-delete_absent stack_of k ps e)
    go (some old) e = total-delete stack_of k old ps e

stacks-set_stack :
    (k : String) (x : Int64) (ps : List (String × PlayerState))
    → total stack_of (adjust k (set_stack x) ps) % m64
      ≡ (total stack_of ps + reset_flow (get k ps) x) % m64
stacks-set_stack k x ps = go (get k ps) refl
  where
    go :
        (o : Option PlayerState)
        → get k ps ≡ o
        → total stack_of (adjust k (set_stack x) ps) % m64
          ≡ (total stack_of ps + reset_flow o x) % m64
    go none e = omega (arith, total-adjust-none stack_of k (set_stack x) ps e)
    go (some old) e = omega (arith, total-adjust-some stack_of k (set_stack x) old ps e)

pub player_joined-chips :
    (pid uid : String) (n : Int32) (x : Int64) (s : GameState)
    → chips (apply_player_joined pid uid n x s)
      ≡ add64 (chips s) (sub64 x (held (get pid s.players)))
unfolding apply_player_joined chips
player_joined-chips pid uid n x s = omega (arith, stacks-put pid (new_player pid n x) s.players)

pub player_left-chips :
    (pid : String) (s : GameState)
    → chips (apply_player_left pid s) ≡ add64 (chips s) (sub64 0 (held (get pid s.players)))
unfolding apply_player_left chips
player_left-chips pid s = omega (arith, stacks-delete pid s.players)

pub set_stack-chips :
    (pid : String) (x : Int64) (s : GameState)
    → chips (on_player pid (set_stack x) s) ≡ add64 (chips s) (reset_flow (get pid s.players) x)
unfolding on_player chips
set_stack-chips pid x s = omega (arith, stacks-set_stack pid x s.players)

pub add_stack-chips :
    (pid : String) (x : Int64) (s : GameState)
    → chips (on_player pid (add_stack x) s) ≡ add64 (chips s) (paid (get pid s.players) x % m64)
unfolding on_player chips
add_stack-chips pid x s = omega (arith, total-add_stack pid x s.players)

-- An update that leaves the stack alone.
pub on_player-chips :
    (pid : String) (g : PlayerState → PlayerState) (s : GameState)
    → ((p : PlayerState) → (g p).stack ≡ p.stack)
    → chips (on_player pid g s) ≡ chips s
unfolding on_player chips
on_player-chips pid g s keep = omega (arith, total-adjust stack_of pid g s.players keep)
