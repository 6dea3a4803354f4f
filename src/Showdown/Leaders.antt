-- ===== src/Showdown/Leaders.antt =====
-- The leaders that `potWinners` of internal/engine/advance.go keeps over the eligible players.
use pace_poker.Prelude.{
  ℕ, ◌<◌, ◌≤◌, String, Option, none, some, List, [], ◌∷◌, ◌++◌, ◌≡◌, refl, ◌⊎◌, inl, inr, arith,
  ltb, ◌==◌, Bool-cases,
}
use pace_poker.Players.{get}
use pace_poker.Eval.Best.{HandEval}
use pace_poker.Advance.Ending.{Evals, Leaders, contend, consider, leaders_from}

-- The string is an element of the list.
abbrev pub Among : String → List String → Type 0
Among x [] = ⊥
Among x (y ∷ ys) = (x ≡ y) ⊎ Among x ys

-- Every player of the list has a hand of this rank.
abbrev pub AllOfRank : ℕ → Evals → List String → Type 0
AllOfRank r evals [] = Unit
AllOfRank r evals (w ∷ ws) =
    ((e : HandEval) × (get w evals ≡ some e) × (e.rank ≡ r)) × AllOfRank r evals ws

-- A player with a hand has no higher rank, and is in the list if the rank is the same.
abbrev pub Beaten : ℕ → List String → String → Option HandEval → Type 0
Beaten r winners pid none = Unit
Beaten r winners pid (some e) = (e.rank ≤ r) × (e.rank ≡ r → Among pid winners)

abbrev pub AllBeaten : ℕ → List String → Evals → List String → Type 0
AllBeaten r winners evals [] = Unit
AllBeaten r winners evals (p ∷ ps) = Beaten r winners p (get p evals) × AllBeaten r winners evals ps

Among-++ : (x : String) (xs ys : List String) → Among x xs → Among x (xs ++ ys)
Among-++ x [] ys h = absurd h
Among-++ x (y ∷ xs) ys (inl e) = inl e
Among-++ x (y ∷ xs) ys (inr h) = inr (Among-++ x xs ys h)

Among-last : (x : String) (xs : List String) → Among x (xs ++ x ∷ [])
Among-last x [] = inl refl
Among-last x (y ∷ xs) = inr (Among-last x xs)

AllOfRank-++ :
    (r : ℕ) (evals : Evals) (xs ys : List String)
    → AllOfRank r evals xs
    → AllOfRank r evals ys
    → AllOfRank r evals (xs ++ ys)
AllOfRank-++ r evals [] ys h k = k
AllOfRank-++ r evals (x ∷ xs) ys (e, h) k = (e, AllOfRank-++ r evals xs ys h k)

abbrev pub NoHands : Evals → List String → Type 0
NoHands evals [] = Unit
NoHands evals (p ∷ ps) = (get p evals ≡ none) × NoHands evals ps

-- What the players considered so far are to the leaders: nobody has a hand, or the leaders hold the
-- highest rank and are all who do.
abbrev pub LeadersOf : Evals → List String → Leaders → Type 0
LeadersOf evals ps none = NoHands evals ps
LeadersOf evals ps (some (best, winners)) =
    AllOfRank best.rank evals winners × AllBeaten best.rank winners evals ps

AllBeaten-none :
    (evals : Evals) (r : ℕ) (ws ps : List String) → NoHands evals ps → AllBeaten r ws evals ps
AllBeaten-none evals r ws [] h = tt
AllBeaten-none evals r ws (p ∷ ps) h = rw h.0 (tt, AllBeaten-none evals r ws ps h.1)

-- A higher rank, or more winners of the same rank, beat the same players.
Beaten-mono :
    (q r : ℕ) (ws vs : List String) (p : String) (o : Option HandEval)
    → (q < r) ⊎ ((q ≡ r) × (Among p ws → Among p vs))
    → Beaten q ws p o
    → Beaten r vs p o
Beaten-mono q r ws vs p none h b = tt
Beaten-mono q r ws vs p (some e) (inl lt) b = (omega (arith, b.0), λ h. absurd (omega (arith, b.0)))
Beaten-mono q r ws vs p (some e) (inr (eq, f)) b = (omega (arith, b.0), λ h. f (b.1 (omega arith)))

AllBeaten-mono :
    (q r : ℕ) (ws vs : List String) (evals : Evals) (ps : List String)
    → (q < r) ⊎ ((q ≡ r) × ((p : String) → Among p ws → Among p vs))
    → AllBeaten q ws evals ps
    → AllBeaten r vs evals ps
AllBeaten-mono q r ws vs evals [] h b = tt
AllBeaten-mono q r ws vs evals (p ∷ ps) h b = (
  Beaten-mono q r ws vs p (get p evals) (elim h [ inl x ↦ inl x | inr (x, f) ↦ inr (x, f p) ]) b.0,
  AllBeaten-mono q r ws vs evals ps h b.1,
)

contend-LeadersOf :
    (evals : Evals) (done : List String) (p : String) (e : HandEval) (lead : Leaders)
    → get p evals ≡ some e
    → LeadersOf evals done lead
    → LeadersOf evals (p ∷ done) (contend lead p e)
contend-LeadersOf evals done p e none ep h = (
  ((e, ep, refl), tt),
  (rw ep (omega arith, λ x. inl refl), AllBeaten-none evals e.rank (p ∷ []) done h),
)
contend-LeadersOf evals done p e (some (best, ws)) ep (own, others) =
    elim (Bool-cases (ltb best.rank e.rank)) [
      | inl lt ↦ rw lt (
        ((e, ep, refl), tt),
        (
          rw ep (omega arith, λ x. inl refl),
          AllBeaten-mono best.rank e.rank ws (p ∷ []) evals done (inl (ground arith)) others,
        ),
      )
      | inr ge ↦ elim (Bool-cases (e.rank == best.rank)) [
        | inl eq ↦
            rw (ge, eq)
              (
                AllOfRank-++ best.rank evals ws (p ∷ []) own ((e, ep, ground arith), tt),
                (
                  rw ep (ground arith, λ x. Among-last p ws),
                  AllBeaten-mono best.rank best.rank ws (ws ++ p ∷ []) evals done
                      (inr (refl, λ q. Among-++ q ws (p ∷ []))) others,
                ),
              )
        | inr ne ↦ rw (ge, ne) (own, (rw ep (ground arith, λ x. absurd (ground arith)), others))
      ]
    ]

consider-LeadersOf :
    (evals : Evals) (done : List String) (p : String) (lead : Leaders) (o : Option HandEval)
    → get p evals ≡ o
    → LeadersOf evals done lead
    → LeadersOf evals (p ∷ done) (consider lead p o)
consider-LeadersOf evals done p none none e h = (e, h)
consider-LeadersOf evals done p (some (best, ws)) none e (own, others) = (own, (rw e tt, others))
consider-LeadersOf evals done p lead (some v) e h = contend-LeadersOf evals done p v lead e h

-- The players in the order of the loop, the last one first.
abbrev pub onto : List String → List String → List String
onto [] done = done
onto (p ∷ ps) done = onto ps (p ∷ done)

pub leaders_from-LeadersOf :
    (evals : Evals) (ps done : List String) (lead : Leaders)
    → LeadersOf evals done lead
    → LeadersOf evals (onto ps done) (leaders_from evals ps lead)
unfolding leaders_from
leaders_from-LeadersOf evals [] done lead h = h
leaders_from-LeadersOf evals (p ∷ ps) done lead h =
    leaders_from-LeadersOf evals ps (p ∷ done) (consider lead p (get p evals))
      (consider-LeadersOf evals done p lead (get p evals) refl h)

-- Where there are leaders, there is one, and all come from the players considered so far.
abbrev pub Drawn : List String → Leaders → Type 0
Drawn ps none = Unit
Drawn ps (some (best, ws)) = ((p : String) × Among p ws) × ((p : String) → Among p ws → Among p ps)

Among-snoc :
    (p q : String) (ws done : List String)
    → ((x : String) → Among x ws → Among x done)
    → Among p (ws ++ q ∷ [])
    → Among p (q ∷ done)
Among-snoc p q [] done f (inl e) = inl e
Among-snoc p q [] done f (inr m) = absurd m
Among-snoc p q (w ∷ ws) done f (inl e) = inr (f p (inl e))
Among-snoc p q (w ∷ ws) done f (inr m) = Among-snoc p q ws done (λ x k. f x (inr k)) m

contend-Drawn :
    (done : List String) (p : String) (e : HandEval) (lead : Leaders)
    → Drawn done lead
    → Drawn (p ∷ done) (contend lead p e)
contend-Drawn done p e none h = ((p, inl refl), λ q m. elim m [ inl x ↦ inl x | inr x ↦ absurd x ])
contend-Drawn done p e (some (best, ws)) ((q, mq), f) = elim (Bool-cases (ltb best.rank e.rank)) [
  | inl lt ↦ rw lt ((p, inl refl), λ x m. elim m [ inl y ↦ inl y | inr y ↦ absurd y ])
  | inr ge ↦ elim (Bool-cases (e.rank == best.rank)) [
    | inl eq ↦ rw (ge, eq) ((q, Among-++ q ws (p ∷ []) mq), λ x m. Among-snoc x p ws done f m)
    | inr ne ↦ rw (ge, ne) ((q, mq), λ x m. inr (f x m))
  ]
]

consider-Drawn :
    (done : List String) (p : String) (lead : Leaders) (o : Option HandEval)
    → Drawn done lead
    → Drawn (p ∷ done) (consider lead p o)
consider-Drawn done p none none h = tt
consider-Drawn done p (some (best, ws)) none (q, f) = (q, λ x m. inr (f x m))
consider-Drawn done p lead (some v) h = contend-Drawn done p v lead h

pub leaders_from-Drawn :
    (evals : Evals) (ps done : List String) (lead : Leaders)
    → Drawn done lead
    → Drawn (onto ps done) (leaders_from evals ps lead)
unfolding leaders_from
leaders_from-Drawn evals [] done lead h = h
leaders_from-Drawn evals (p ∷ ps) done lead h =
    leaders_from-Drawn evals ps (p ∷ done) (consider lead p (get p evals))
      (consider-Drawn done p lead (get p evals) h)
