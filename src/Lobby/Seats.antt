-- ===== src/Lobby/Seats.antt =====
-- The seat that `selectSeat` of internal/lobby/join_leave.go chooses.
use pace_poker.Prelude.{
  ℕ, zero, suc, ◌+◌, ◌≤◌, ◌<◌, Int32, Bool, true, false, none, some, ◌≡◌, inl, inr, arith, h32, m32,
  lt32, ◌==◌, Bool-cases, Option-cases,
}
use pace_poker.Proto.{GameState}
use pace_poker.Storage.Errors.{Err}
use pace_poker.Storage.Io.{done, failed}
use pace_poker.Lobby.Seating.{is_taken, max_seats_of, first_free, loop_bound, select_seat}

first_free-some :
    (taken : Int32 → Bool) (left s t : ℕ)
    → first_free taken left s ≡ some t
    → (taken t ≡ false) × (s ≤ t) × (t < s + left) × ((u : ℕ) → s ≤ u → u < t → taken u ≡ true)
first_free-some taken zero s t h = ground (arith, h)
first_free-some taken (suc left) s t h = elim (Bool-cases (taken s)) [
  | inr e ↦ ground (arith, h, e)
  | inl e ↦
      let (f, a, b, c) = first_free-some taken left (s + 1) t (ground (arith, h, e)) in
      (
        f,
        omega (arith, a),
        omega (arith, b),
        λ u x y. elim (Bool-cases (u == s)) [
          | inl p ↦ ground (arith, e, p)
          | inr p ↦ c u (ground (arith, x, p)) y
        ],
      )
]

first_free-none :
    (taken : Int32 → Bool) (left s : ℕ)
    → first_free taken left s ≡ none
    → (u : ℕ) → s ≤ u
    → u < s + left
    → taken u ≡ true
first_free-none taken zero s h u a b = ground (arith, a, b)
first_free-none taken (suc left) s h u a b = elim (Bool-cases (taken s)) [
  | inr e ↦ ground (arith, h, e)
  | inl e ↦ elim (Bool-cases (u == s)) [
    | inl p ↦ ground (arith, e, p)
    | inr p ↦
        first_free-none taken left (s + 1) (ground (arith, h, e)) u (ground (arith, a, p))
          (omega (arith, b))
  ]
]

-- Free, a seat of the table, and where none was asked for, the lowest such seat.
abbrev pub IsChoice : GameState → Int32 → Int32 → Type 0
IsChoice g requested s =
    (is_taken g s ≡ false)
    × (1 ≤ s)
    × (s ≤ max_seats_of g.config)
    × (requested ≡ 0 → (u : ℕ) → 1 ≤ u → u < s → is_taken g u ≡ true)

-- The seat that `selectSeat` gives is free and one of the table's, 1 to its number of seats; it is the
-- one asked for, and where none was asked for (seat 0) the lowest that is free. (The number of seats
-- is not negative, and the request is an int32.)
pub select_seat-IsChoice :
    (g : GameState) (requested s : Int32)
    → max_seats_of g.config < h32
    → requested < m32
    → select_seat g requested ≡ done s
    → IsChoice g requested s × (lt32 0 requested ≡ true → s ≡ requested)
unfolding select_seat
select_seat-IsChoice g requested s small bits h = elim (Bool-cases (lt32 0 requested)) [
  | inl asked ↦ (
    (
      ground (arith, h, asked),
      ground (arith, h, asked, bits),
      ground (arith, h, asked, small, bits),
      λ z. ground (arith, asked, z),
    ),
    λ k. ground (arith, h, asked),
  )
  | inr auto_seat ↦
      elim (Option-cases (first_free (is_taken g) (loop_bound (max_seats_of g.config)) 1)) [
        | inl full ↦ ground (arith, h, auto_seat, full)
        | inr (t, e) ↦
            let (f, a, b, c) =
              first_free-some (is_taken g) (loop_bound (max_seats_of g.config)) 1 t e in
            let same : t ≡ s = ground (arith, h, auto_seat, e) in
            (
              (
                rw (← same) f,
                rw (← same) a,
                ground (arith, b, small, same),
                λ z u x y. c u x (ground (arith, same, y)),
              ),
              λ k. ground (arith, k, auto_seat),
            )
      ]
]

-- When `selectSeat` is asked for no seat and fails, every seat of the table is taken. (The number of
-- seats is not negative.)
pub select_seat-full :
    (g : GameState) (e : Err) (u : ℕ)
    → max_seats_of g.config < h32
    → select_seat g 0 ≡ failed e
    → 1 ≤ u
    → u ≤ max_seats_of g.config
    → is_taken g u ≡ true
unfolding select_seat
select_seat-full g e u small h a b =
    elim (Option-cases (first_free (is_taken g) (loop_bound (max_seats_of g.config)) 1)) [
      | inr (t, k) ↦ ground (arith, h, k)
      | inl k ↦
          first_free-none (is_taken g) (loop_bound (max_seats_of g.config)) 1 k u a
            (ground (arith, small, b))
    ]
