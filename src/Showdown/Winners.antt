-- ===== src/Showdown/Winners.antt =====
-- Who wins a pot at the showdown (`potWinners` of internal/engine/advance.go).
use pace_poker.Prelude.{
  ℕ, ◌≤◌, String, none, some, List, [], ◌∷◌, ◌≡◌, refl, ap, sym, ◌∙◌, ◌⊎◌, inl, inr, arith,
}
use mathlib.Core.Path.{subst}
use pace_poker.Players.{get}
use pace_poker.Eval.Best.{HandEval}
use pace_poker.Proto.{GameState}
use pace_poker.Advance.Ending.{Evals, Leaders, leaders_from, pot_winners}
use pace_poker.Showdown.Leaders.{
  Among, AllOfRank, Beaten, AllBeaten, NoHands, LeadersOf, onto, leaders_from-LeadersOf, Drawn,
  leaders_from-Drawn,
}

AllBeaten-Among :
    (r : ℕ) (ws : List String) (evals : Evals) (ps : List String) (p : String)
    → AllBeaten r ws evals ps
    → Among p ps
    → Beaten r ws p (get p evals)
AllBeaten-Among r ws evals [] p h m = absurd m
AllBeaten-Among r ws evals (q ∷ ps) p h (inl e) =
    subst (λ x. Beaten r ws x (get x evals)) (sym e) h.0
AllBeaten-Among r ws evals (q ∷ ps) p h (inr m) = AllBeaten-Among r ws evals ps p h.1 m

NoHands-Among :
    (evals : Evals) (ps : List String) (p : String)
    → NoHands evals ps
    → Among p ps
    → get p evals ≡ none
NoHands-Among evals [] p h m = absurd m
NoHands-Among evals (q ∷ ps) p h (inl e) = ap (λ x. get x evals) e ∙ h.0
NoHands-Among evals (q ∷ ps) p h (inr m) = NoHands-Among evals ps p h.1 m

Among-onto :
    (p : String) (ps done : List String) → Among p ps ⊎ Among p done → Among p (onto ps done)
Among-onto p [] done (inl m) = absurd m
Among-onto p [] done (inr m) = m
Among-onto p (q ∷ ps) done (inl (inl e)) = Among-onto p ps (q ∷ done) (inr (inl e))
Among-onto p (q ∷ ps) done (inl (inr m)) = Among-onto p ps (q ∷ done) (inl m)
Among-onto p (q ∷ ps) done (inr m) = Among-onto p ps (q ∷ done) (inr (inr m))

onto-Among :
    (p : String) (ps done : List String) → Among p (onto ps done) → Among p ps ⊎ Among p done
onto-Among p [] done m = inr m
onto-Among p (q ∷ ps) done m = elim (onto-Among p ps (q ∷ done) m) [
  | inl x ↦ inl (inr x)
  | inr (inl x) ↦ inl (inl x)
  | inr (inr x) ↦ inr x
]

AllOfRank-Among :
    (r : ℕ) (evals : Evals) (ws : List String) (p : String)
    → AllOfRank r evals ws
    → Among p ws
    → (e : HandEval) × (get p evals ≡ some e) × (e.rank ≡ r)
AllOfRank-Among r evals [] p h m = absurd m
AllOfRank-Among r evals (w ∷ ws) p ((e, g, k), h) (inl x) = (e, ap (λ y. get y evals) x ∙ g, k)
AllOfRank-Among r evals (w ∷ ws) p (x, h) (inr m) = AllOfRank-Among r evals ws p h m

-- A player who is eligible and has a hand that no other eligible player's beats.
abbrev pub IsBest : Evals → List String → String → Type 0
IsBest evals eligible p =
    Among p eligible
    × ((e : HandEval) × (get p evals ≡ some e)
        × ((q : String) (f : HandEval) → Among q eligible → get q evals ≡ some f → f.rank ≤ e.rank))

-- The winners are those players, and there is one.
abbrev pub WinnersAreBest : Evals → List String → List String → Type 0
WinnersAreBest evals eligible winners =
    ((p : String) × Among p winners)
    × ((p : String) → Among p winners → IsBest evals eligible p)
    × ((p : String) → IsBest evals eligible p → Among p winners)

Beaten-some :
    (r : ℕ) (ws : List String) (evals : Evals) (q : String) (f : HandEval)
    → get q evals ≡ some f
    → Beaten r ws q (get q evals)
    → (f.rank ≤ r) × (f.rank ≡ r → Among q ws)
Beaten-some r ws evals q f g b = subst (λ o. Beaten r ws q o) g b

-- Winners of one rank, that beat all the eligible players and come from them, are the best.
winners-AreBest :
    (r : ℕ) (evals : Evals) (eligible ws : List String)
    → ((p : String) × Among p ws)
    → ((p : String) → Among p ws → Among p eligible)
    → AllOfRank r evals ws
    → ((p : String) → Among p eligible → Beaten r ws p (get p evals))
    → WinnersAreBest evals eligible ws
winners-AreBest r evals eligible ws (w, mw) from own beat =
    let (top, gt, rt) = AllOfRank-Among r evals ws w own mw in
    (
      (w, mw),
      λ p m.
          let (e, g, k) = AllOfRank-Among r evals ws p own m in
          (
            from p m,
            (
              e,
              g,
              λ q f mq gq.
                  let (le, same) = Beaten-some r ws evals q f gq (beat q mq) in
                  omega (arith, le, k),
            ),
          ),
      λ p (m, (e, g, most)).
          let (le, same) = Beaten-some r ws evals p e g (beat p m) in
          same (omega (arith, le, rt, most w top (from w mw) gt)),
    )

-- When some eligible player has a hand, `potWinners` names exactly those eligible players whose hand
-- has the highest rank among the hands of the eligible players: somebody is named, everybody named is
-- eligible and has such a hand, and every eligible player with such a hand is named.
pub pot_winners-WinnersAreBest :
    (evals : Evals) (eligible : List String) (s : GameState) (p : String) (e : HandEval)
    → Among p eligible
    → get p evals ≡ some e
    → WinnersAreBest evals eligible (pot_winners evals eligible s).ids
unfolding pot_winners
pot_winners-WinnersAreBest evals eligible s p e m ep =
    go (leaders_from evals eligible none) refl (leaders_from-LeadersOf evals eligible [] none tt)
      (leaders_from-Drawn evals eligible [] none tt)
  where
    go :
        (lead : Leaders)
        → leaders_from evals eligible none ≡ lead
        → LeadersOf evals (onto eligible []) lead
        → Drawn (onto eligible []) lead
        → WinnersAreBest evals eligible (pot_winners evals eligible s).ids
    go none l h k = absurd (
        ground
          (arith, NoHands-Among evals (onto eligible []) p h (Among-onto p eligible [] (inl m))))
    go (some (best, ws)) l (own, others) (someone, drawn) =
        rw (pot_winners, l)
          (winners-AreBest best.rank evals eligible ws someone
            (λ q mq. elim (onto-Among q eligible [] (drawn q mq)) [ inl x ↦ x | inr x ↦ absurd x ])
            own
            (λ q mq.
              AllBeaten-Among best.rank ws evals (onto eligible []) q others
                (Among-onto q eligible [] (inl mq))))
