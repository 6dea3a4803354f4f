-- ===== src/Lobby/Seating.antt =====
-- The helpers of internal/lobby/join_leave.go: the player of a user, and the choice of a seat.
use pace_poker.Prelude.{
  ℕ, zero, suc, ◌+◌, Int32, String, Bool, false, ◌||◌, not, Option, none, some, List, [], ◌∷◌, ◌==◌,
  ltb, lt32, h32, str_eq, if◌then◌else◌,
}
use pace_poker.Proto.{GameState, PlayerState, CashGameConfig}
use pace_poker.Storage.Errors.{sentinel, seat_taken, table_full}
use pace_poker.Storage.Io.{Outcome, done, failed}

-- `findPlayerByUserID`.
abbrev pub player_of_user : String → List (String × String) → Option String
player_of_user user [] = none
player_of_user user ((pid, uid) ∷ m) = if str_eq uid user then some pid else player_of_user user m

unfoldable pub find_player_by_user_id : GameState → String → Option String
find_player_by_user_id s user = player_of_user user s.player_user_ids

-- `occupied[s]`.
abbrev pub is_occupied : List (String × PlayerState) → Int32 → Bool
is_occupied [] s = false
is_occupied ((pid, p) ∷ ps) s = p.seat == s || is_occupied ps s

-- `reserved[s]`.
abbrev pub is_reserved : List Int32 → Int32 → Bool
is_reserved [] s = false
is_reserved (x ∷ xs) s = x == s || is_reserved xs s

abbrev pub is_taken : GameState → Int32 → Bool
is_taken g s = is_occupied g.players s || is_reserved g.reserved_seats s

abbrev pub max_seats_of : Option CashGameConfig → Int32
max_seats_of none = 0
max_seats_of (some cfg) = cfg.max_seats

-- The first free seat from `s` on, of as many as are left.
abbrev pub first_free : (Int32 → Bool) → ℕ → Int32 → Option Int32
first_free taken zero s = none
first_free taken (suc left) s = if not (taken s) then some s else first_free taken left (s + 1)

-- The seats that the loop `for s := 1; s <= maxSeats` visits.
abbrev pub loop_bound : Int32 → ℕ
loop_bound most = if ltb most h32 then most else 0

-- `selectSeat`.
unfoldable pub select_seat : GameState → Int32 → Outcome Int32
select_seat g requested =
    if lt32 0 requested
    then if lt32 (max_seats_of g.config) requested || is_taken g requested
      then failed (sentinel seat_taken)
      else done requested
    else elim (first_free (is_taken g) (loop_bound (max_seats_of g.config)) 1) [
      | some s ↦ done s
      | none ↦ failed (sentinel table_full)
    ]
