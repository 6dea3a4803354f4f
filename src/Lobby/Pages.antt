-- ===== src/Lobby/Pages.antt =====
-- A log read in pages: the rows after the last one of a page are the rows that the page leaves.
use pace_poker.Prelude.{
  ℕ, zero, suc, ◌≤◌, ◌<◌, Bool, List, [], ◌∷◌, ◌++◌, ◌≡◌, refl, ap, ◌∙◌, arith, length, take, drop,
  keep, sort_by, insert_by, le64, h64,
}
use pace_poker.Storage.Db.{EventRow}

module _ {ℓ} {A : Type ℓ} where
  pub take-++-drop : (n : ℕ) (xs : List A) → take n xs ++ drop n xs ≡ xs
  take-++-drop zero xs = refl
  take-++-drop (suc n) [] = refl
  take-++-drop (suc n) (x ∷ xs) = ap (λ l. x ∷ l) (take-++-drop n xs)

  pub length-drop_le : (n : ℕ) (xs : List A) → length (drop n xs) ≤ length xs
  length-drop_le zero xs = omega arith
  length-drop_le (suc n) [] = omega arith
  length-drop_le (suc n) (x ∷ xs) = omega (arith, length-drop_le n xs)

  length-insert_by :
      (less : A → A → Bool) (x : A) (xs : List A) → length (insert_by less x xs) ≡ suc (length xs)
  length-insert_by less x [] = refl
  length-insert_by less x (y ∷ xs) = ground (arith, length-insert_by less x xs)

  pub length-sort_by : (less : A → A → Bool) (xs : List A) → length (sort_by less xs) ≡ length xs
  length-sort_by less [] = refl
  length-sort_by less (x ∷ xs) =
      length-insert_by less x (sort_by less xs) ∙ ap (λ n. suc n) (length-sort_by less xs)

module _ {B : Type 0} where
  -- The sequences of the rows grow from row to row, from `k` on, and are positive int64s.
  abbrev pub AscendsFrom : ℕ → List (EventRow B) → Type 0
  AscendsFrom k [] = Unit
  AscendsFrom k (r ∷ rs) =
      (k ≤ r.sequence) × (suc r.sequence < h64) × AscendsFrom (suc r.sequence) rs

  -- The sequence of the last row, `k` where there is none.
  abbrev pub last_of : ℕ → List (EventRow B) → ℕ
  last_of k [] = k
  last_of k (r ∷ rs) = last_of r.sequence rs

  abbrev pub from : ℕ → List (EventRow B) → List (EventRow B)
  from k rows = keep (λ r. le64 k r.sequence) rows

  weaken : (j k : ℕ) (rows : List (EventRow B)) → j ≤ k → AscendsFrom k rows → AscendsFrom j rows
  weaken j k [] le a = tt
  weaken j k (r ∷ rs) le (a, b, c) = (omega (arith, a, le), b, c)

  from_all : (k : ℕ) (rows : List (EventRow B)) → k < h64 → AscendsFrom k rows → from k rows ≡ rows
  from_all k [] small a = refl
  from_all k (r ∷ rs) small (a, b, c) =
      let rest = from_all k rs small (weaken k (suc r.sequence) rs (omega (arith, a)) c) in
      ground (arith, rest, a, b, small)

  pub last_of-ge :
      (n k : ℕ) (rows : List (EventRow B))
      → AscendsFrom (suc k) rows
      → suc k < h64
      → (k ≤ last_of k (take n rows)) × (suc (last_of k (take n rows)) < h64)
  last_of-ge zero k rows a small = (omega arith, small)
  last_of-ge (suc n) k [] a small = (omega arith, small)
  last_of-ge (suc n) k (r ∷ rs) (a, b, c) small =
      let (ge, lt) = last_of-ge n r.sequence rs c b in (omega (arith, ge, a), lt)

  -- After a page, the rows from the sequence that follows its last row on are the rest.
  pub page-rest :
      (n k : ℕ) (rows : List (EventRow B))
      → AscendsFrom (suc k) rows
      → suc k < h64
      → (from (suc (last_of k (take n rows))) rows ≡ drop n rows)
        × AscendsFrom (suc (last_of k (take n rows))) (drop n rows)
        × (suc (last_of k (take n rows)) < h64)
  page-rest zero k rows a small = (from_all (suc k) rows small a, a, small)
  page-rest (suc n) k [] a small = (refl, tt, small)
  page-rest (suc n) k (r ∷ rs) (a, b, c) small =
      let (same, rest, lt) = page-rest n r.sequence rs c b in
      let (ge, lt2) = last_of-ge n r.sequence rs c b in (ground (arith, same, ge, lt, b), rest, lt)

  pub last_of-drop :
      (n k : ℕ) (rows : List (EventRow B))
      → last_of (last_of k (take n rows)) (drop n rows) ≡ last_of k rows
  last_of-drop zero k rows = refl
  last_of-drop (suc n) k [] = refl
  last_of-drop (suc n) k (r ∷ rs) = last_of-drop n r.sequence rs
