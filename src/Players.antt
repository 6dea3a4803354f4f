-- ===== src/Players.antt =====
-- Go's maps with string keys (`GameState.Players`, `PlayerUserIds`), as association lists: read,
-- write, delete, the update of a pointed-to entry, and a loop that updates every entry.
pub mod Laws
use pace_poker.Prelude.{
  ℕ, ◌+◌, ◌<◌, Int64, String, Option, none, some, List, [], ◌∷◌, ◌≡◌, arith, str_eq, if◌then◌else◌,
}
use pace_poker.Proto.{PlayerState}

module _ {ℓ} {V : Type ℓ} where
  abbrev pub get : String → List (String × V) → Option V
  get k [] = none
  get k ((j, v) ∷ m) = if str_eq j k then some v else get k m

  -- `m[k] = v`: a new key goes to the end.
  abbrev pub put : String → V → List (String × V) → List (String × V)
  put k v [] = (k, v) ∷ []
  put k v ((j, w) ∷ m) = if str_eq j k then (j, v) ∷ m else (j, w) ∷ put k v m

  -- `delete(m, k)`.
  abbrev pub delete : String → List (String × V) → List (String × V)
  delete k [] = []
  delete k ((j, w) ∷ m) = if str_eq j k then m else (j, w) ∷ delete k m

  -- `if p := m[k]; p != nil { *p = f(*p) }`.
  abbrev pub adjust : String → (V → V) → List (String × V) → List (String × V)
  adjust k f [] = []
  adjust k f ((j, w) ∷ m) = if str_eq j k then (j, f w) ∷ m else (j, w) ∷ adjust k f m

  -- `for _, p := range m { *p = f(*p) }`.
  abbrev pub map_values : (V → V) → List (String × V) → List (String × V)
  map_values f [] = []
  map_values f ((j, w) ∷ m) = (j, f w) ∷ map_values f m

-- The sum of a field over every player, not reduced modulo 2 ^ 64.
abbrev pub total : (PlayerState → ℕ) → List (String × PlayerState) → ℕ
total f [] = 0
total f ((j, p) ∷ m) = f p + total f m
