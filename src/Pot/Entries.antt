-- ===== src/Pot/Entries.antt =====
-- The contributors of `computePots` (internal/engine/pot.go), and who may win a pot.
use pace_poker.Prelude.{
  Int64, String, Bool, not, List, [], ◌∷◌, ◌++◌, keep, map, contains, lt64, if◌then◌else◌,
}
use pace_poker.Proto.{PlayerState}

pub record PotShare : Type 0 where
  pub amount : Int64
  pub eligible_ids : List String

pub record Entry : Type 0 where
  pub id : String
  pub committed : Int64
  pub folded : Bool

-- Every player who has put chips in this hand, folded or not.
abbrev pub entries_of : List (String × PlayerState) → List Entry
entries_of [] = []
entries_of ((pid, p) ∷ ps) =
    if lt64 0 p.total_committed_this_hand
    then record { id = pid; committed = p.total_committed_this_hand; folded = p.is_folded }
      ∷ entries_of ps
    else entries_of ps

abbrev pub live_ids : List Entry → List String
live_ids es = map (λ e. e.id) (keep (λ e. not e.folded) es)

-- `eligibleInOrder`: the live contributors in action order, then those that the order lacks.
unfoldable pub eligible_in_order : List String → List Entry → List String
eligible_in_order order from =
    let live = live_ids from in
    let out = keep (contains live) order in out ++ keep (λ pid. not (contains out pid)) live
