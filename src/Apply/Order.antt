-- ===== src/Apply/Order.antt =====
-- The action orders of internal/engine/apply.go: who acts, and in which sequence.
use pace_poker.Prelude.{
  ℕ, zero, suc, ◌+◌, ◌%◌, Int32, String, Bool, false, ◌&&◌, ◌||◌, not, Option, none, some, List, [],
  ◌∷◌, map, length, get_or, keep, sort_by, lt32, lt64, ◌==◌, str_eq, if◌then◌else◌,
}
use pace_poker.Proto.{PlayerState, GameState}
use pace_poker.Players.{get}

-- `removeString`, `removeInt32`: the filter in place, on the clone's own slice.
abbrev pub remove_string : List String → String → List String
remove_string s v = keep (λ x. not (str_eq x v)) s

abbrev pub remove_int32 : List Int32 → Int32 → List Int32
remove_int32 s v = keep (λ x. not (x == v)) s

abbrev pub can_be_dealt : PlayerState → Bool
can_be_dealt p = not p.is_sitting_out && lt64 0 p.stack

-- `seatedActivePlayersBySeats`: neither the folded nor the all-in flag is read.
unfoldable pub seated_active_players_by_seats : GameState → List String
seated_active_players_by_seats s =
    map (λ e. e.0)
      (sort_by (λ a b. lt32 a.1.seat b.1.seat) (keep (λ e. can_be_dealt e.1) s.players))

-- The loop of `rotateFrom` for the `k` places from the `i`th on.
abbrev pub rotate_loop : List String → ℕ → ℕ → ℕ → List String
rotate_loop ids start i zero = []
rotate_loop ids start i (suc k) =
    get_or ids ((start + i) % length ids) "" ∷ rotate_loop ids start (i + 1) k

unfoldable pub rotate_from : List String → ℕ → List String
rotate_from ids start = rotate_loop ids start 0 (length ids)

-- The index of the first entry that equals `target`, counted from `i`.
abbrev pub index_from : ℕ → List String → String → Option ℕ
index_from i [] target = none
index_from i (x ∷ xs) target = if str_eq x target then some i else index_from (i + 1) xs target

unfoldable pub rotate_after : List String → String → List String
rotate_after ids target = elim (index_from 0 ids target) [
  | none ↦ ids
  | some i ↦ rotate_from ids ((i + 1) % length ids)
]

unfoldable pub preflop_action_order : GameState → String → String → List String
preflop_action_order s dealer_id bb_id =
    let seated = seated_active_players_by_seats s in
    elim (index_from 0 seated bb_id) [
      | none ↦ rotate_after seated dealer_id
      | some bb_idx ↦ rotate_from seated ((bb_idx + 1) % length seated)
    ]

unfoldable pub postflop_action_order : GameState → String → List String
postflop_action_order s dealer_id = rotate_after (seated_active_players_by_seats s) dealer_id

-- `p == nil || p.IsFolded || p.IsAllIn`, negated.
abbrev pub still_to_act : Option PlayerState → Bool
still_to_act none = false
still_to_act (some p) = not (p.is_folded || p.is_all_in)

unfoldable pub others_in_order : GameState → String → List String
others_in_order s except = elim s.current_hand [
  | none ↦ []
  | some h ↦
      keep (λ pid. not (str_eq pid except) && still_to_act (get pid s.players)) h.action_order
]
