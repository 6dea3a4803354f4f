-- ===== src/Showdown/Nibbles.antt =====
-- The bits that `newHandRank` of internal/engine/eval.go puts side by side.
use Prim.Native.Nat.{bit_or, bit_or-bitwise, digits, max}
use pace_poker.Prelude.{ℕ, zero, suc, ◌+◌, ◌*◌, ◌/◌, ◌%◌, ◌<◌, ◌≤◌, ◌≡◌, refl, ap, ◌∙◌, ◌⊎◌, arith}
use pace_poker.Eval.Rank.{HandCat, cat_code, Five, new_hand_rank, shl}

abbrev or_digits : ℕ → ℕ → ℕ → ℕ
or_digits n a b = digits (λ y. y) max n a b

-- More digits than the first number has add nothing.
or_digits-enough : (n m a b : ℕ) → a ≤ n → a ≤ m → or_digits n a b ≡ or_digits m a b
or_digits-enough zero zero a b h k = refl
or_digits-enough zero (suc m) zero b h k = refl
or_digits-enough zero (suc m) (suc a) b h k = absurd (omega arith)
or_digits-enough (suc n) zero zero b h k = refl
or_digits-enough (suc n) zero (suc a) b h k = absurd (omega arith)
or_digits-enough (suc n) (suc m) zero b h k = refl
or_digits-enough (suc n) (suc m) (suc a) b h k =
    omega (arith, or_digits-enough n m (suc a / 2) (b / 2) (omega arith) (omega arith))

bit_or_lowest : (a b : ℕ) → bit_or a b ≡ bit_or (a / 2) (b / 2) * 2 + max (a % 2) (b % 2)
bit_or_lowest zero b = omega (arith, bit_or-bitwise 0 b, bit_or-bitwise 0 (b / 2))
bit_or_lowest (suc a) b = omega (
  arith,
  bit_or-bitwise (suc a) b,
  bit_or-bitwise (suc a / 2) (b / 2),
  or_digits-enough a (suc a / 2) (suc a / 2) (b / 2) (omega arith) (omega arith),
)

bit_or-zero_below : (n a : ℕ) → a ≤ n → bit_or a 0 ≡ a
bit_or-zero_below n zero h = refl
bit_or-zero_below zero (suc a) h = absurd (omega arith)
bit_or-zero_below (suc n) (suc a) h =
    omega (arith, bit_or_lowest (suc a) 0, bit_or-zero_below n (suc a / 2) (omega arith))

abbrev two_to : ℕ → ℕ
two_to zero = 1
two_to (suc k) = two_to k * 2

-- Bits above the lowest `k` and bits among them add up.
bit_or-apart : (k a b : ℕ) → b < two_to k → bit_or (a * two_to k) b ≡ a * two_to k + b
bit_or-apart zero a b h = omega (
  arith,
  bit_or-zero_below a a (omega arith),
  ap (λ (x : ℕ). bit_or (a * 1) x) b_zero,
  ap (λ (x : ℕ). bit_or x 0) a_one,
)
  where
    b_zero : b ≡ 0
    b_zero = omega arith

    a_one : a * 1 ≡ a
    a_one = omega arith
bit_or-apart (suc k) a b h =
    ap (λ (x : ℕ). bit_or x b) even
    ∙ omega (
      arith,
      even,
      bit_or_lowest (a * two_to k * 2) b,
      ap (λ (x : ℕ). bit_or x (b / 2)) half,
      bit_or-apart k a (b / 2) (omega arith),
    )
  where
    even : a * (two_to k * 2) ≡ a * two_to k * 2
    even = grind arith

    half : a * two_to k * 2 / 2 ≡ a * two_to k
    half = omega arith

-- The five tiebreakers fit four bits each.
abbrev pub AreNibbles : Five → Type 0
AreNibbles t = (t.at0 < 16) × (t.at1 < 16) × (t.at2 < 16) × (t.at3 < 16) × (t.at4 < 16)

-- The rank as a number of six digits to the base 16, the category first.
abbrev pub six_digits : ℕ → Five → ℕ
six_digits c t = ((((c * 16 + t.at0) * 16 + t.at1) * 16 + t.at2) * 16 + t.at3) * 16 + t.at4

cat_code-lt : (c : HandCat) → cat_code c < 16
cat_code-lt c = ground arith

-- One more digit below those that stand already.
place : (k v a w : ℕ) → v ≡ a * two_to k → w < two_to k → bit_or v w ≡ a * two_to k + w
place k v a w e lt = ap (λ (x : ℕ). bit_or x w) e ∙ bit_or-apart k a w lt

packed :
    (c : HandCat) (t : Five)
    → AreNibbles t
    → new_hand_rank c t ≡ six_digits (cat_code c) t * two_to 40
unfolding new_hand_rank
packed c t h =
    let n = cat_code c in
    let lt = cat_code-lt c in
    let d1 = n * 16 + t.at0 in
    let d2 = d1 * 16 + t.at1 in
    let d3 = d2 * 16 + t.at2 in
    let d4 = d3 * 16 + t.at3 in
    let v1 = bit_or (shl n 60) (shl t.at0 56) in
    let v2 = bit_or v1 (shl t.at1 52) in
    let v3 = bit_or v2 (shl t.at2 48) in
    let v4 = bit_or v3 (shl t.at3 44) in
    let p1 = place 60 (shl n 60) n (shl t.at0 56) (omega arith) (omega arith) in
    let p2 = place 56 v1 d1 (shl t.at1 52) (omega (arith, p1)) (omega arith) in
    let p3 = place 52 v2 d2 (shl t.at2 48) (omega (arith, p2)) (omega arith) in
    let p4 = place 48 v3 d3 (shl t.at3 44) (omega (arith, p3)) (omega arith) in
    let p5 = place 44 v4 d4 (shl t.at4 40) (omega (arith, p4)) (omega arith) in omega (arith, p5)

-- The category, then the tiebreakers one after the other.
abbrev pub LessHand : HandCat → Five → HandCat → Five → Type 0
LessHand c t d u =
    (cat_code c < cat_code d)
    ⊎ ((cat_code c ≡ cat_code d)
        × ((t.at0 < u.at0)
            ⊎ ((t.at0 ≡ u.at0)
                × ((t.at1 < u.at1)
                    ⊎ ((t.at1 ≡ u.at1)
                        × ((t.at2 < u.at2)
                            ⊎ ((t.at2 ≡ u.at2)
                                × ((t.at3 < u.at3) ⊎ ((t.at3 ≡ u.at3) × (t.at4 < u.at4))))))))))

less_digits :
    (c d : HandCat) (t u : Five)
    → AreNibbles t
    → AreNibbles u
    → LessHand c t d u
    → six_digits (cat_code c) t < six_digits (cat_code d) u
less_digits c d t u h k l = ground arith

digits_less :
    (c d : HandCat) (t u : Five)
    → AreNibbles t
    → AreNibbles u
    → six_digits (cat_code c) t < six_digits (cat_code d) u
    → LessHand c t d u
digits_less c d t u h k l = ground arith

-- The integer order of hand ranks is the order of the categories first and of the five tiebreakers
-- after it, one after the other, in both directions, for tiebreakers below 16.
pub new_hand_rank-LessHand :
    (c d : HandCat) (t u : Five)
    → AreNibbles t
    → AreNibbles u
    → (new_hand_rank c t < new_hand_rank d u → LessHand c t d u)
      × (LessHand c t d u → new_hand_rank c t < new_hand_rank d u)
new_hand_rank-LessHand c d t u h k = (
  λ l. digits_less c d t u h k (omega (arith, packed c t h, packed d u k)),
  λ l. omega (arith, packed c t h, packed d u k, less_digits c d t u h k l),
)
