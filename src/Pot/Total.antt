-- ===== src/Pot/Total.antt =====
-- The pots of `computePots` (internal/engine/pot.go) hold exactly what the players have committed.
use pace_poker.Prelude.{
  ℕ, suc, ◌+◌, ◌-◌, ◌*◌, ◌<◌, ◌≤◌, String, Bool, true, false, List, [], ◌∷◌, ◌≡◌, refl, ap, arith,
  ◌∙◌, length, sort_by, insert_by, lt64, le64, mul64, sub64, add64, m64, h64, Bool-cases, inl, inr,
}
use pace_poker.Proto.{PlayerState, GameState}
use pace_poker.Players.{total}
use pace_poker.Pot.{
  raw_pots, merge_from, merge_pots, compute_pots, action_order_of, same_string_slice,
}
use pace_poker.Pot.Entries.{Entry, PotShare, entries_of}

abbrev pub sum_pots : List PotShare → ℕ
sum_pots [] = 0
sum_pots (p ∷ ps) = p.amount + sum_pots ps

abbrev pub sum_committed : List Entry → ℕ
sum_committed [] = 0
sum_committed (e ∷ es) = e.committed + sum_committed es

-- What the entries have committed above a level.
abbrev excess : ℕ → List Entry → ℕ
excess prev [] = 0
excess prev (e ∷ es) = (e.committed - prev) + excess prev es

abbrev AllAbove : ℕ → List Entry → Type 0
AllAbove prev [] = Unit
AllAbove prev (e ∷ es) = (prev ≤ e.committed) × AllAbove prev es

abbrev Ascending : List Entry → Type 0
Ascending [] = Unit
Ascending (e ∷ es) = AllAbove e.committed es × Ascending es

AllAbove-mono : (a b : ℕ) (es : List Entry) → a ≤ b → AllAbove b es → AllAbove a es
AllAbove-mono a b [] h k = tt
AllAbove-mono a b (e ∷ es) h k = (omega arith, AllAbove-mono a b es h k.1)

excess_shift :
    (prev d : ℕ) (es : List Entry)
    → AllAbove (prev + d) es
    → excess prev es ≡ length es * d + excess (prev + d) es
excess_shift prev d [] h = omega arith
excess_shift prev d (e ∷ es) h = omega (arith, excess_shift prev d es h.1)

excess-le : (prev : ℕ) (es : List Entry) → excess prev es ≤ sum_committed es
excess-le prev [] = omega arith
excess-le prev (e ∷ es) = omega (arith, excess-le prev es)

le_of_le64 : (a b : ℕ) → a < h64 → b < h64 → le64 a b ≡ true → a ≤ b
le_of_le64 a b ha hb e = ground arith

lt_of_le64 : (a b : ℕ) → a < h64 → b < h64 → le64 a b ≡ false → b < a
lt_of_le64 a b ha hb e = ground arith

sub64_exact : (c prev : ℕ) → prev ≤ c → c < h64 → sub64 c prev ≡ c - prev
sub64_exact c prev h k = omega arith

-- The amount of a level, which does not wrap and is positive.
level_amount :
    (c prev n : ℕ)
    → prev < c
    → c < h64
    → (c - prev) * suc n < h64
    → mul64 (sub64 c prev) (suc n) ≡ (c - prev) * suc n
level_amount c prev n h k small = rw (sub64_exact c prev (omega arith) k) (omega arith)

positive : (d n : ℕ) → 0 < d → d * suc n < h64 → lt64 0 (d * suc n) ≡ true
positive d n h small = ground arith

-- Above the first entry's level, every later entry puts in at least as much.
level-le :
    (c prev : ℕ) (es : List Entry)
    → prev ≤ c
    → AllAbove c es
    → excess prev es ≡ length es * (c - prev) + excess c es
level-le c prev es h above =
    excess_shift prev (c - prev) es (AllAbove-mono (prev + (c - prev)) c es (omega arith) above)
    ∙ ap (λ (x : ℕ). length es * (c - prev) + excess x es) (omega arith)

-- The raw pots of entries in ascending order hold what is committed above the level before.
raw_pots-sum :
    (order : List String) (prev : ℕ) (es : List Entry)
    → Ascending es
    → AllAbove prev es
    → sum_committed es < h64
    → sum_pots (raw_pots order prev es) ≡ excess prev es
raw_pots-sum order prev [] asc above small = refl
raw_pots-sum order prev (e ∷ es) asc above small = elim (Bool-cases (le64 e.committed prev)) [
  | inl tie ↦ rw tie (
      omega (
        arith,
        raw_pots-sum order prev es asc.1 above.1 (omega arith),
        le_of_le64 e.committed prev (omega arith) (omega arith) tie,
      ))
  | inr higher ↦
      let lt = lt_of_le64 e.committed prev (omega arith) (omega arith) higher in
      let share = level-le e.committed prev es (omega arith) asc.0 in
      let small_level : (e.committed - prev) * suc (length es) < h64 =
        omega (arith, share, excess-le prev es) in
      let amount = level_amount e.committed prev (length es) lt (omega arith) small_level in
      rw (higher, amount, positive (e.committed - prev) (length es) (omega arith) small_level)
        (omega (arith, share, raw_pots-sum order e.committed es asc.1 asc.0 (omega arith)))
]

merge_from-sum :
    (last : PotShare) (ps : List PotShare)
    → last.amount + sum_pots ps < m64
    → sum_pots (merge_from last ps) ≡ last.amount + sum_pots ps
merge_from-sum last [] small = refl
merge_from-sum last (p ∷ ps) small =
    elim (Bool-cases (same_string_slice last.eligible_ids p.eligible_ids)) [
      | inl e ↦ rw e (
          omega (
            arith,
            merge_from-sum (record last { amount = add64 last.amount p.amount }) ps (omega arith),
          ))
      | inr e ↦ rw e (omega (arith, merge_from-sum p ps (omega arith)))
    ]

merge_pots-sum : (ps : List PotShare) → sum_pots ps < m64 → sum_pots (merge_pots ps) ≡ sum_pots ps
merge_pots-sum [] small = refl
merge_pots-sum (p ∷ ps) small = merge_from-sum p ps small

abbrev earlier : Entry → Entry → Bool
earlier a b = lt64 a.committed b.committed

insert-sum :
    (x : Entry) (es : List Entry)
    → sum_committed (insert_by earlier x es) ≡ x.committed + sum_committed es
insert-sum x [] = refl
insert-sum x (e ∷ es) = ground (arith, insert-sum x es)

sort-sum : (es : List Entry) → sum_committed (sort_by earlier es) ≡ sum_committed es
sort-sum [] = refl
sort-sum (e ∷ es) = omega (arith, insert-sum e (sort_by earlier es), sort-sum es)

insert-AllAbove :
    (a : ℕ) (x : Entry) (es : List Entry)
    → a ≤ x.committed
    → AllAbove a es
    → AllAbove a (insert_by earlier x es)
insert-AllAbove a x [] h k = (h, tt)
insert-AllAbove a x (e ∷ es) h k = ground (arith, insert-AllAbove a x es h k.1)

insert-Ascending :
    (x : Entry) (es : List Entry)
    → x.committed + sum_committed es < h64
    → Ascending es
    → Ascending (insert_by earlier x es)
insert-Ascending x [] small h = (tt, tt)
insert-Ascending x (e ∷ es) small h = elim (Bool-cases (earlier e x)) [
  | inl before ↦ rw before (
    insert-AllAbove e.committed x es
        (lt64_le e.committed x.committed (omega arith) (omega arith) before) h.0,
    insert-Ascending x es (omega arith) h.1,
  )
  | inr after ↦
      let le = not_lt64_le e.committed x.committed (omega arith) (omega arith) after in
      rw after ((le, AllAbove-mono x.committed e.committed es le h.0), h)
]
  where
    lt64_le : (a b : ℕ) → a < h64 → b < h64 → lt64 a b ≡ true → a ≤ b
    lt64_le a b ha hb e = ground arith

    not_lt64_le : (a b : ℕ) → a < h64 → b < h64 → lt64 a b ≡ false → b ≤ a
    not_lt64_le a b ha hb e = ground arith

sort-Ascending : (es : List Entry) → sum_committed es < h64 → Ascending (sort_by earlier es)
sort-Ascending [] small = tt
sort-Ascending (e ∷ es) small =
    insert-Ascending e (sort_by earlier es) (omega (arith, sort-sum es))
      (sort-Ascending es (omega arith))

above_zero : (es : List Entry) → AllAbove 0 es
above_zero [] = tt
above_zero (e ∷ es) = (omega arith, above_zero es)

excess_zero : (es : List Entry) → excess 0 es ≡ sum_committed es
excess_zero [] = refl
excess_zero (e ∷ es) = omega (arith, excess_zero es)

abbrev pub committed_of : PlayerState → ℕ
committed_of p = p.total_committed_this_hand

entries_of-sum :
    (ps : List (String × PlayerState))
    → total committed_of ps < h64
    → sum_committed (entries_of ps) ≡ total committed_of ps
entries_of-sum [] small = refl
entries_of-sum ((pid, p) ∷ ps) small = ground (arith, entries_of-sum ps)

-- While all the commitments together stay below 2 ^ 63, the main pot and the side pots add up to
-- exactly what the players have committed in the hand: no chip is lost or counted twice.
pub compute_pots-total :
    (s : GameState)
    → total committed_of s.players < h64
    → sum_pots (compute_pots s) ≡ total committed_of s.players
unfolding compute_pots
compute_pots-total s small =
    let es = entries_of s.players in
    let order = action_order_of s.current_hand in
    let sum = entries_of-sum s.players small in
    let raw =
      raw_pots-sum order 0 (sort_by earlier es) (sort-Ascending es (omega arith))
        (above_zero (sort_by earlier es)) (omega (arith, sort-sum es)) in
    omega (
      arith,
      merge_pots-sum (raw_pots order 0 (sort_by earlier es))
          (omega (arith, excess_zero (sort_by earlier es), sort-sum es)),
      excess_zero (sort_by earlier es),
      sort-sum es,
    )
