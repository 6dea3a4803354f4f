-- ===== src/Rounds/Replay.antt =====
-- Events replayed in batches (`applyAll` of internal/engine/apply.go).
use pace_poker.Prelude.{List, [], ◌∷◌, ◌++◌, ◌≡◌, refl}
use pace_poker.Proto.{GameState, GameEvent}
use pace_poker.Apply.{apply, apply_all}

-- Two batches replayed one after the other are one batch.
pub apply_all-++ :
    (s : GameState) (es fs : List GameEvent)
    → apply_all s (es ++ fs) ≡ apply_all (apply_all s es) fs
unfolding apply_all
apply_all-++ s [] fs = refl
apply_all-++ s (e ∷ es) fs = apply_all-++ (apply s e) es fs
