-- ===== src/Eval/Groups.antt =====
-- The frequency groups and the straight test of `eval5` (internal/engine/eval.go).
use pace_poker.Prelude.{
  ℕ, zero, suc, ◌+◌, ◌-◌, Bool, true, false, ◌&&◌, not, List, [], ◌∷◌, ◌++◌, sort_by, ltb, ◌==◌,
  if◌then◌else◌,
}
use pace_poker.Eval.Rank.{Five}

pub record Group : Type 0 where
  pub rank : ℕ
  pub count : ℕ

-- `freq[r]`.
abbrev pub freq : ℕ → List ℕ → ℕ
freq r [] = 0
freq r (x ∷ xs) = (if x == r then 1 else 0) + freq r xs

-- The groups of the ranks from `r` on, `k` of them, that occur.
abbrev pub groups_from : List ℕ → ℕ → ℕ → List Group
groups_from ranks r zero = []
groups_from ranks r (suc k) =
    if ltb 0 (freq r ranks)
    then record { rank = r; count = freq r ranks } ∷ groups_from ranks (r + 1) k
    else groups_from ranks (r + 1) k

-- By count, then by rank, both descending.
abbrev pub group_before : Group → Group → Bool
group_before a b = if a.count == b.count then ltb b.rank a.rank else ltb b.count a.count

unfoldable pub groups_of : List ℕ → List Group
groups_of ranks = sort_by group_before (groups_from ranks 0 13)

abbrev pub repeat : ℕ → ℕ → List ℕ
repeat zero x = []
repeat (suc k) x = x ∷ repeat k x

-- Each group's rank, as often as it occurs.
abbrev pub spread : List Group → List ℕ
spread [] = []
spread (g ∷ gs) = repeat g.count g.rank ++ spread gs

unfoldable pub detect_straight : Five → Bool × ℕ
detect_straight r =
    if r.at0 - r.at4 == 4
      && not (r.at0 == r.at1)
      && not (r.at1 == r.at2)
      && not (r.at2 == r.at3)
      && not (r.at3 == r.at4)
    then (true, r.at0)
    else if r.at0 == 12 && r.at1 == 3 && r.at2 == 2 && r.at3 == 1 && r.at4 == 0
    then (true, 3)
    else (false, 0)
