-- ===== src/Pot/Eligible.antt =====
-- Who may win a pot of `computePots` (internal/engine/pot.go).
use pace_poker.Prelude.{
  suc, Int64, String, Bool, true, false, List, [], ◌∷◌, ◌++◌, ◌≡◌, refl, ◌⊎◌, inl, inr, arith, keep,
  contains, lt64, le64, sort_by, insert_by, Bool-cases, str_eq, eq_iff, mul64, sub64, add64, length,
}
use mathlib.Core.Path.{subst}
use pace_poker.Proto.{PlayerState, GameState}
use pace_poker.Pot.Entries.{PotShare, Entry, entries_of, live_ids, eligible_in_order}
use pace_poker.Pot.{
  action_order_of, raw_pots, merge_from, merge_pots, compute_pots, same_string_slice,
}

-- The player of that id is one of the map.
abbrev pub Holds : String → PlayerState → List (String × PlayerState) → Type 0
Holds pid p [] = ⊥
Holds pid p ((j, q) ∷ ps) = ((pid ≡ j) × (p ≡ q)) ⊎ Holds pid p ps

-- A player of the map who has put chips in the hand and has not folded.
abbrev pub MayWin : List (String × PlayerState) → String → Type 0
MayWin ps pid =
    (p : PlayerState) × Holds pid p ps
    × (p.is_folded ≡ false)
    × (lt64 0 p.total_committed_this_hand ≡ true)

module _ (P : String → Type 0) where
  abbrev pub Each : List String → Type 0
  Each [] = Unit
  Each (x ∷ xs) = P x × Each xs

  abbrev pub EachPot : List PotShare → Type 0
  EachPot [] = Unit
  EachPot (p ∷ ps) = Each p.eligible_ids × EachPot ps

  -- The entries who have not folded.
  abbrev pub EachLive : List Entry → Type 0
  EachLive [] = Unit
  EachLive (e ∷ es) = (e.folded ≡ false → P e.id) × EachLive es

  Each-++ : (xs ys : List String) → Each xs → Each ys → Each (xs ++ ys)
  Each-++ [] ys h k = k
  Each-++ (x ∷ xs) ys (p, h) k = (p, Each-++ xs ys h k)

  Each-keep :
      (f : String → Bool) (xs : List String) → ((x : String) → f x ≡ true → P x) → Each (keep f xs)
  Each-keep f [] h = tt
  Each-keep f (x ∷ xs) h = elim (Bool-cases (f x)) [
    | inl e ↦ rw e (h x e, Each-keep f xs h)
    | inr e ↦ rw e (Each-keep f xs h)
  ]

  Each-keep_of : (f : String → Bool) (xs : List String) → Each xs → Each (keep f xs)
  Each-keep_of f [] h = tt
  Each-keep_of f (x ∷ xs) (p, h) = elim (Bool-cases (f x)) [
    | inl e ↦ rw e (p, Each-keep_of f xs h)
    | inr e ↦ rw e (Each-keep_of f xs h)
  ]

  Each-contains : (xs : List String) (x : String) → Each xs → contains xs x ≡ true → P x
  Each-contains [] x h e = ground arith
  Each-contains (y ∷ xs) x (p, h) e = elim (Bool-cases (str_eq y x)) [
    | inl eq ↦ subst P ((eq_iff y x).0 eq) p
    | inr ne ↦ Each-contains xs x h (ground arith)
  ]

  Each-live_ids : (es : List Entry) → EachLive es → Each (live_ids es)
  Each-live_ids [] h = tt
  Each-live_ids (e ∷ es) (p, h) = elim (Bool-cases e.folded) [
    | inl y ↦ rw y (Each-live_ids es h)
    | inr n ↦ rw n (p n, Each-live_ids es h)
  ]

  Each-eligible_in_order :
      (order : List String) (es : List Entry) → EachLive es → Each (eligible_in_order order es)
  unfolding eligible_in_order
  Each-eligible_in_order order es h =
      let live = Each-live_ids es h in
      Each-++ _ _
        (Each-keep (contains (live_ids es)) order (λ x e. Each-contains (live_ids es) x live e))
        (Each-keep_of _ (live_ids es) live)

  EachPot-raw_pots :
      (order : List String) (prev : Int64) (es : List Entry)
      → EachLive es
      → EachPot (raw_pots order prev es)
  EachPot-raw_pots order prev [] h = tt
  EachPot-raw_pots order prev (e ∷ es) h = elim (Bool-cases (le64 e.committed prev)) [
    | inl le ↦ rw le (EachPot-raw_pots order prev es h.1)
    | inr gt ↦ elim (Bool-cases (lt64 0 (mul64 (sub64 e.committed prev) (suc (length es))))) [
      | inl y ↦
          rw (gt, y)
            (Each-eligible_in_order order (e ∷ es) h, EachPot-raw_pots order e.committed es h.1)
      | inr n ↦ rw (gt, n) (EachPot-raw_pots order e.committed es h.1)
    ]
  ]

  EachPot-merge_from :
      (last : PotShare) (ps : List PotShare) → EachPot (last ∷ ps) → EachPot (merge_from last ps)
  EachPot-merge_from last [] h = h
  EachPot-merge_from last (p ∷ ps) (a, (b, h)) =
      elim (Bool-cases (same_string_slice last.eligible_ids p.eligible_ids)) [
        | inl e ↦
            rw e
              (EachPot-merge_from (record last { amount = add64 last.amount p.amount }) ps (a, h))
        | inr e ↦ rw e (a, EachPot-merge_from p ps (b, h))
      ]

  EachPot-merge_pots : (ps : List PotShare) → EachPot ps → EachPot (merge_pots ps)
  EachPot-merge_pots [] h = tt
  EachPot-merge_pots (p ∷ ps) h = EachPot-merge_from p ps h

  EachLive-insert_by :
      (before : Entry → Entry → Bool) (e : Entry) (es : List Entry)
      → EachLive (e ∷ es)
      → EachLive (insert_by before e es)
  EachLive-insert_by before e [] h = h
  EachLive-insert_by before e (x ∷ es) (p, (q, h)) = elim (Bool-cases (before x e)) [
    | inl y ↦ rw y (q, EachLive-insert_by before e es (p, h))
    | inr n ↦ rw n (p, (q, h))
  ]

  EachLive-sort_by :
      (before : Entry → Entry → Bool) (es : List Entry) → EachLive es → EachLive (sort_by before es)
  EachLive-sort_by before [] h = tt
  EachLive-sort_by before (e ∷ es) (p, h) =
      EachLive-insert_by before e (sort_by before es) (p, EachLive-sort_by before es h)

EachLive-entries_of :
    (all ps : List (String × PlayerState))
    → ((pid : String) (p : PlayerState) → Holds pid p ps → Holds pid p all)
    → EachLive (MayWin all) (entries_of ps)
EachLive-entries_of all [] f = tt
EachLive-entries_of all ((pid, p) ∷ ps) f =
    let rest = EachLive-entries_of all ps (λ j q m. f j q (inr m)) in
    elim (Bool-cases (lt64 0 p.total_committed_this_hand)) [
      | inl y ↦ rw y ((λ n. (p, f pid p (inl (refl, refl)), n, y)), rest)
      | inr n ↦ rw n rest
    ]

-- Whoever is eligible for a pot, the main pot or a side pot, is a player of the table who has put
-- chips in the hand and has not folded.
pub compute_pots-MayWin : (s : GameState) → EachPot (MayWin s.players) (compute_pots s)
unfolding compute_pots
compute_pots-MayWin s = EachPot-merge_pots _ _ (
    EachPot-raw_pots _ (action_order_of s.current_hand) 0 _ (
      EachLive-sort_by _ _ (entries_of s.players)
        (EachLive-entries_of s.players s.players (λ pid p h. h))))
