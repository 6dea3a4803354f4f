-- ===== src/Pot.antt =====
-- internal/engine/pot.go: the main pot and the side pots from each player's commitment, the rake,
-- and the fallback winner.
pub mod Entries
pub mod Rake
pub mod Eligible
pub mod Total
pub mod RakeBounds
use pace_poker.Prelude.{
  ℕ, zero, suc, ◌+◌, ◌*◌, Int64, String, Bool, true, false, ◌&&◌, not, Option, none, some, List, [],
  ◌∷◌, ◌++◌, length, keep, map, contains, add64, sub64, mul64, lt64, le64, str_eq, sort_by,
  if◌then◌else◌,
}
use pace_poker.Proto.{PlayerState, HandState, GameState}
use pace_poker.Players.{get}
use Entries.{Entry, PotShare, entries_of, eligible_in_order}

abbrev pub action_order_of : Option HandState → List String
action_order_of none = []
action_order_of (some h) = h.action_order

-- The loop over the sorted entries: at each new level of commitment, a pot of what every entry
-- from here on puts in above the level before.
abbrev pub raw_pots : List String → Int64 → List Entry → List PotShare
raw_pots order prev [] = []
raw_pots order prev (e ∷ es) =
    let rest = raw_pots order (if le64 e.committed prev then prev else e.committed) es in
    let amount = mul64 (sub64 e.committed prev) (suc (length es)) in
    if le64 e.committed prev
    then rest
    else if lt64 0 amount
    then record { amount = amount; eligible_ids = eligible_in_order order (e ∷ es) } ∷ rest
    else rest

-- `sameStringSlice`.
abbrev pub same_string_slice : List String → List String → Bool
same_string_slice [] [] = true
same_string_slice (a ∷ as') (b ∷ bs) = str_eq a b && same_string_slice as' bs
same_string_slice _ _ = false

-- The merge of consecutive pots with the same eligible players; `last` is the pot that is still
-- open at the end of `merged`.
abbrev pub merge_from : PotShare → List PotShare → List PotShare
merge_from last [] = last ∷ []
merge_from last (p ∷ ps) =
    let joined = merge_from (record last { amount = add64 last.amount p.amount }) ps in
    let apart = last ∷ merge_from p ps in
    if same_string_slice last.eligible_ids p.eligible_ids then joined else apart

abbrev pub merge_pots : List PotShare → List PotShare
merge_pots [] = []
merge_pots (p ∷ ps) = merge_from p ps

-- `computePots`: no pot where nobody has committed anything.
unfoldable pub compute_pots : GameState → List PotShare
compute_pots s = merge_pots (
    raw_pots (action_order_of s.current_hand) 0
      (sort_by (λ a b. lt64 a.committed b.committed) (entries_of s.players)))

abbrev pub is_live : Option PlayerState → Bool
is_live none = false
is_live (some p) = not p.is_folded

abbrev first_live : List (String × PlayerState) → List String → List String → String
first_live ps eligible [] = ""
first_live ps eligible (pid ∷ pids) =
    if is_live (get pid ps) && contains eligible pid then pid else first_live ps eligible pids

-- `firstEligibleInOrder`: "" where there is none.
unfoldable pub first_eligible_in_order : GameState → List String → String
first_eligible_in_order s eligible = first_live s.players eligible (action_order_of s.current_hand)
