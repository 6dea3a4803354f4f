-- ===== src/Rounds/Settled.antt =====
-- `runAdvance` of internal/engine/handler.go as rounds of `advance` (internal/engine/advance.go).
use pace_poker.Prelude.{
  ℕ, zero, suc, Int64, String, Option, List, [], ◌∷◌, ◌++◌, ◌≡◌, refl, ap, sym, ◌∙◌, ◌⊎◌, inl, inr,
  arith,
}
use mathlib.Core.Path.{subst}
use pace_poker.Proto.{GameState, GameEvent}
use pace_poker.Cards.Dealer.{Dealer, Result, ok, err}
use pace_poker.Apply.{apply_all}
use pace_poker.Advance.{advance, advance_loop, run_advance, max_steps}
use pace_poker.Rounds.Replay.{apply_all-++}

module _ (dlr : Dealer) (hand_ids : Int64 → String) (now : Option ℕ) where
  -- `k` rounds that each give events: their events, and the state and the dealer after them.
  pub data Runs : ℕ → GameState → dlr.State → List GameEvent → GameState → dlr.State → Type 0 where
    quiet : {s : GameState} {d : dlr.State} → Runs 0 s d [] s d
    round :
        {k : ℕ} {s t : GameState} {d d1 d2 : dlr.State} {e : GameEvent} {es more : List GameEvent}
        → advance dlr hand_ids s now d ≡ (ok (e ∷ es), d1)
        → Runs k (apply_all s (e ∷ es)) d1 more t d2
        → Runs (suc k) s d ((e ∷ es) ++ more) t d2

  -- The rounds end in the state that their events replay to.
  Runs-apply_all :
      {k : ℕ} {s t : GameState} {d d2 : dlr.State} {es : List GameEvent}
      → Runs k s d es t d2
      → apply_all s es ≡ t
  unfolding apply_all
  Runs-apply_all quiet = refl
  Runs-apply_all (round {s = s} {e = e} {es = es} {more = more} a r) =
      apply_all-++ s (e ∷ es) more ∙ Runs-apply_all r

  -- A batch before the events of the rounds left.
  prepend :
      List GameEvent → Result (List GameEvent) × dlr.State → Result (List GameEvent) × dlr.State
  prepend es (ok rest, d) = (ok (es ++ rest), d)
  prepend es (err x, d) = (err x, d)

  -- What the loop makes of a batch.
  after_batch :
      ℕ → GameState → Result (List GameEvent) × dlr.State → Result (List GameEvent) × dlr.State
  after_batch n s (err x, d) = (err x, d)
  after_batch n s (ok [], d) = (ok [], d)
  after_batch n s (ok (e ∷ es), d) =
      prepend (e ∷ es) (advance_loop dlr hand_ids n (apply_all s (e ∷ es)) now d)

  advance_loop-suc :
      (n : ℕ) (s : GameState) (d : dlr.State)
      → advance_loop dlr hand_ids (suc n) s now d ≡ after_batch n s (advance dlr hand_ids s now d)
  unfolding advance_loop after_batch prepend
  advance_loop-suc n s d = ground arith

  -- Rounds that end at the limit, or where `advance` has nothing to add.
  abbrev Settles : ℕ → GameState → dlr.State → List GameEvent → dlr.State → Type 0
  Settles n s d es d2 =
      (k : ℕ) × (t : GameState) × (d1 : dlr.State) × Runs k s d es t d1
      × (((k ≡ n) × (d1 ≡ d2)) ⊎ (advance dlr hand_ids t now d1 ≡ (ok [], d2)))

  ok_batch :
      (es fs : List GameEvent) (d d2 : dlr.State)
      → ◌≡◌ {A = Result (List GameEvent) × dlr.State} (ok es, d) (ok fs, d2)
      → (es ≡ fs) × (d ≡ d2)
  ok_batch es fs d d2 h = ground arith

  prepend-ok :
      (bs : List GameEvent) (r : Result (List GameEvent) × dlr.State) (es : List GameEvent)
      (d2 : dlr.State)
      → prepend bs r ≡ (ok es, d2)
      → (more : List GameEvent) × (r ≡ (ok more, d2)) × (bs ++ more ≡ es)
  unfolding prepend
  prepend-ok bs (ok more, d) es d2 h =
      let (a, b) = ok_batch (bs ++ more) es d d2 h in (more, cc b, a)
  prepend-ok bs (err x, d) es d2 h = ground arith

  after_batch-Settles :
      (n : ℕ) (s : GameState) (d : dlr.State) (es : List GameEvent) (d2 : dlr.State)
      (r : Result (List GameEvent) × dlr.State)
      → advance dlr hand_ids s now d ≡ r
      → after_batch n s r ≡ (ok es, d2)
      → ((t : GameState) (d1 : dlr.State) (more : List GameEvent)
          → advance_loop dlr hand_ids n t now d1 ≡ (ok more, d2)
          → Settles n t d1 more d2)
      → Settles (suc n) s d es d2
  unfolding after_batch
  after_batch-Settles n s d es d2 (err x, d1) a h ih = ground arith
  after_batch-Settles n s d es d2 (ok [], d1) a h ih =
      let (e, b) = ok_batch [] es d1 d2 h in
      (
        0,
        s,
        d,
        subst (λ fs. Runs 0 s d fs s d) e quiet,
        inr (a ∙ ap (λ (x : dlr.State). (ok [], x)) b),
      )
  after_batch-Settles n s d es d2 (ok (b ∷ bs), d1) a h ih =
      let (more, e, j) = prepend-ok (b ∷ bs) _ es d2 h in
      let (k, t, d3, r, end) = ih (apply_all s (b ∷ bs)) d1 more e in
      (
        suc k,
        t,
        d3,
        subst (λ fs. Runs (suc k) s d fs t d3) j (round a r),
        elim end [ inl (x, y) ↦ inl (ap (λ (m : ℕ). suc m) x, y) | inr x ↦ inr x ],
      )

  advance_loop-Settles :
      (n : ℕ) (s : GameState) (d : dlr.State) (es : List GameEvent) (d2 : dlr.State)
      → advance_loop dlr hand_ids n s now d ≡ (ok es, d2)
      → Settles n s d es d2
  unfolding advance_loop
  advance_loop-Settles zero s d es d2 h =
      let (e, b) = ok_batch [] es d d2 h in
      (0, s, d, subst (λ fs. Runs 0 s d fs s d) e quiet, inl (refl, b))
  advance_loop-Settles (suc n) s d es d2 h =
      after_batch-Settles n s d es d2 (advance dlr hand_ids s now d) refl
        (sym (advance_loop-suc n s d) ∙ h) (λ t d1 more. advance_loop-Settles n t d1 more d2)

  -- When `runAdvance` returns events, they are those of rounds of `advance`, each run in the state
  -- that the events before it replay to; and it stopped either because `advance` had nothing to add
  -- to the state that all the events replay to, or after exactly 64 rounds.
  pub run_advance-Settles :
      (s : GameState) (d : dlr.State) (es : List GameEvent) (d2 : dlr.State)
      → run_advance dlr hand_ids s now d ≡ (ok es, d2)
      → (k : ℕ) × (d1 : dlr.State) × Runs k s d es (apply_all s es) d1
        × (((k ≡ max_steps) × (d1 ≡ d2))
            ⊎ (advance dlr hand_ids (apply_all s es) now d1 ≡ (ok [], d2)))
  unfolding run_advance
  run_advance-Settles s d es d2 h =
      let (k, t, d1, r, end) = advance_loop-Settles max_steps s d es d2 h in
      subst
        (λ u.
          (k : ℕ) × (d1 : dlr.State) × Runs k s d es u d1
          × (((k ≡ max_steps) × (d1 ≡ d2)) ⊎ (advance dlr hand_ids u now d1 ≡ (ok [], d2))))
        (sym (Runs-apply_all r)) (k, d1, r, end)
