-- ===== src/Showdown/Strongest.antt =====
-- The hand that `bestHand` of internal/engine/eval.go picks from two hole cards and a full board.
use pace_poker.Prelude.{
  ℕ, zero, suc, ◌≤◌, none, some, List, [], ◌∷◌, ◌++◌, map, length, ◌≡◌, refl, sym, ◌∙◌, ◌⊎◌, inl,
  inr, arith, ltb, Bool-cases, Option-cases,
}
use mathlib.Core.Path.{subst}
use pace_poker.Eval.Rank.{Five, five_of}
use pace_poker.Eval.Best.{
  HandEval, eval_of, pick, next_combination, better, best_from, first_indices, combination_fuel,
  best_hand,
}

-- The choices of `k` elements of a list, in the order of the list.
abbrev pub choose : ℕ → List ℕ → List (List ℕ)
choose zero xs = [] ∷ []
choose (suc k) [] = []
choose (suc k) (x ∷ xs) = map (λ ys. x ∷ ys) (choose k xs) ++ choose (suc k) xs

-- The first hand of the highest rank.
abbrev strongest : HandEval → List Five → HandEval
strongest best [] = best
strongest best (f ∷ fs) = strongest (better best (eval_of f)) fs

-- The combinations after `ix`.
abbrev later : ℕ → ℕ → Five → List Five
later zero n ix = []
later (suc fuel) n ix = elim (next_combination n ix) [ none ↦ [] | some j ↦ j ∷ later fuel n j ]

best_from-strongest :
    (fuel : ℕ) (pool : List ℕ) (ix : Five) (best : HandEval)
    → best_from fuel pool ix best ≡ strongest best (map (pick pool) (later fuel (length pool) ix))
unfolding best_from
best_from-strongest zero pool ix best = refl
best_from-strongest (suc fuel) pool ix best =
    elim (Option-cases (next_combination (length pool) ix)) [
      | inl e ↦ rw (best_from, later, e) refl
      | inr (j, e) ↦
          rw (best_from, later, e)
            (best_from-strongest fuel pool j (better best (eval_of (pick pool j))))
    ]

abbrev full_pool : ℕ → ℕ → ℕ → ℕ → ℕ → ℕ → ℕ → List ℕ
full_pool a b c d e f g = a ∷ b ∷ c ∷ d ∷ e ∷ f ∷ g ∷ []

all_combinations :
    (a b c d e f g : ℕ)
    → map (pick (full_pool a b c d e f g)) (first_indices ∷ later combination_fuel 7 first_indices)
      ≡ map five_of (choose 5 (full_pool a b c d e f g))
unfolding next_combination
all_combinations a b c d e f g = refl

-- The five is one of the list.
abbrev pub Within : Five → List Five → Type 0
Within f [] = ⊥
Within f (g ∷ gs) = (f ≡ g) ⊎ Within f gs

-- One of the fives evaluates to the result, and none of them ranks higher.
abbrev pub IsStrongestOf : HandEval → List Five → Type 0
IsStrongestOf r fives =
    ((f : Five) × Within f fives × (r ≡ eval_of f))
    × ((f : Five) → Within f fives → (eval_of f).rank ≤ r.rank)

better-le :
    (best e : HandEval) → (best.rank ≤ (better best e).rank) × (e.rank ≤ (better best e).rank)
better-le best e = elim (Bool-cases (ltb best.rank e.rank)) [
  | inl lt ↦ rw lt (ground arith, omega arith)
  | inr ge ↦ rw ge (omega arith, ground arith)
]

strongest-le :
    (best : HandEval) (fs : List Five)
    → (best.rank ≤ (strongest best fs).rank)
      × ((f : Five) → Within f fs → (eval_of f).rank ≤ (strongest best fs).rank)
strongest-le best [] = (omega arith, λ f w. absurd w)
strongest-le best (g ∷ gs) =
    let (le, all) = strongest-le (better best (eval_of g)) gs in
    let (b, e) = better-le best (eval_of g) in
    (omega arith, λ f w. elim w [ inl h ↦ rw h (omega arith) | inr m ↦ all f m ])

better-one : (best e : HandEval) → (better best e ≡ best) ⊎ (better best e ≡ e)
better-one best e = elim (Bool-cases (ltb best.rank e.rank)) [
  | inl lt ↦ inr (rw lt refl)
  | inr ge ↦ inl (rw ge refl)
]

strongest-one :
    (best : HandEval) (fs : List Five)
    → (strongest best fs ≡ best) ⊎ ((f : Five) × Within f fs × (strongest best fs ≡ eval_of f))
strongest-one best [] = inl refl
strongest-one best (g ∷ gs) = elim (strongest-one (better best (eval_of g)) gs) [
  | inl h ↦ elim (better-one best (eval_of g)) [
    | inl b ↦ inl (h ∙ b)
    | inr b ↦ inr (g, inl refl, h ∙ b)
  ]
  | inr (f, w, h) ↦ inr (f, inr w, h)
]

strongest-IsStrongestOf :
    (g : Five) (gs : List Five) → IsStrongestOf (strongest (eval_of g) gs) (g ∷ gs)
strongest-IsStrongestOf g gs =
    let (le, all) = strongest-le (eval_of g) gs in
    (
      elim (strongest-one (eval_of g) gs) [
        | inl h ↦ (g, inl refl, h)
        | inr (f, w, h) ↦ (f, inr w, h)
      ],
      λ f w. elim w [ inl h ↦ rw h le | inr m ↦ all f m ],
    )

-- With a full board of five cards, `bestHand` gives the evaluation of one of the 21 choices of five
-- cards out of the seven, and no choice has a higher rank.
pub best_hand-IsStrongestOf :
    (c1 c2 b1 b2 b3 b4 b5 : ℕ)
    → IsStrongestOf
        (best_hand c1 c2 (b1 ∷ b2 ∷ b3 ∷ b4 ∷ b5 ∷ []))
        (map five_of (choose 5 (c1 ∷ c2 ∷ b1 ∷ b2 ∷ b3 ∷ b4 ∷ b5 ∷ [])))
unfolding best_hand
best_hand-IsStrongestOf c1 c2 b1 b2 b3 b4 b5 =
    let pool = full_pool c1 c2 b1 b2 b3 b4 b5 in
    subst (IsStrongestOf (best_hand c1 c2 (b1 ∷ b2 ∷ b3 ∷ b4 ∷ b5 ∷ [])))
      (all_combinations c1 c2 b1 b2 b3 b4 b5)
      (subst
        (λ r.
          IsStrongestOf r
            (map (pick pool) (first_indices ∷ later combination_fuel 7 first_indices)))
        (sym (
          best_from-strongest combination_fuel pool first_indices
            (eval_of (pick pool first_indices))))
        (strongest-IsStrongestOf (pick pool first_indices)
          (map (pick pool) (later combination_fuel 7 first_indices))))
