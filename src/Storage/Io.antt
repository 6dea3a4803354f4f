-- ===== src/Storage/Io.antt =====
-- A call of the store: it may fail, and it moves the world. The world holds the rows that a
-- transaction sees, those that are committed, and how many calls to the outside there have been.
-- A transaction reads and writes `view` and leaves `base` until it commits; outside of one both are
-- the same. A statement that fails changes nothing, and its transaction goes on; PostgreSQL would
-- refuse the statements after it. A COMMIT that fails counts as a rollback.
use pace_poker.Prelude.{ℕ, ◌+◌, Option, none, some, ◌≡◌, refl, ◌⊎◌, inl, inr, arith}
use pace_poker.Storage.Errors.{Err, wrap}
use pace_poker.Storage.Env.{Env, Uuid}
use pace_poker.Storage.Db.{Db}

pub data Outcome (A : Type 0) : Type 0 where
  done : A → Outcome A
  failed : Err → Outcome A

-- The next step after a value, for code that only computes.
abbrev pub and_then : {A C : Type 0} → Outcome A → (A → Outcome C) → Outcome C
and_then (done a) f = f a
and_then (failed e) f = failed e

abbrev pub or_error : {A : Type 0} → Err → Option A → Outcome A
or_error e none = failed e
or_error e (some a) = done a

pub record World (B : Type 0) : Type 0 where
  pub tick : ℕ
  pub view : Db B
  pub base : Db B

abbrev pub Io : Type 0 → Type 0 → Type 0
Io B A = World B → Outcome A × World B

infixl 5 ◌>>=◌ ◌>>◌
abbrev pub ◌>>=◌ : {B A C : Type 0} → Io B A → (A → Io B C) → Io B C
◌>>=◌ m f w = let (r, w') = m w in elim r [ done a ↦ f a w' | failed e ↦ (failed e, w') ]

abbrev pub ◌>>◌ : {B A C : Type 0} → Io B A → Io B C → Io B C
m >> k = m >>= λ _. k

abbrev pub pure : {B A : Type 0} → A → Io B A
pure a w = (done a, w)

abbrev pub fail : {B A : Type 0} → Err → Io B A
fail e w = (failed e, w)

-- `if err != nil { return f(err) }`.
abbrev pub or_fail : {B A : Type 0} → (Err → Err) → Io B A → Io B A
or_fail f m w =
    let (r, w') = m w in elim r [ done a ↦ (done a, w') | failed e ↦ (failed (f e), w') ]

-- The result as a value, for code that looks at the error and goes on.
abbrev pub attempt : {B A : Type 0} → Io B A → Io B (Outcome A)
attempt m w = let (r, w') = m w in (done r, w')

-- A value or an error.
abbrev pub lift : {B A : Type 0} → Outcome A → Io B A
lift r w = (r, w)

abbrev pub lift_option : {B A : Type 0} → Err → Option A → Io B A
lift_option e none w = (failed e, w)
lift_option e (some a) w = (done a, w)

-- Inversion of a chain that succeeds.
pub >>=-eq-done :
    {B A C : Type 0} (m : Io B A) (f : A → Io B C) (w w2 : World B) {c : C}
    → (m >>= f) w ≡ (done c, w2)
    → (a : A) × (w1 : World B) × (m w ≡ (done a, w1)) × (f a w1 ≡ (done c, w2))
>>=-eq-done {B} {A} {C} m f w w2 {c} h = go (m w) refl h
  where
    go :
        (r : Outcome A × World B)
        → m w ≡ r
        → elim r.0 as (λ _. Outcome C × World B) [ done a ↦ f a r.1 | failed e ↦ (failed e, r.1) ]
          ≡ (done c, w2)
        → (a : A) × (w1 : World B) × (m w ≡ (done a, w1)) × (f a w1 ≡ (done c, w2))
    go (done a, w1) e k = (a, w1, e, k)
    go (failed x, w1) e k = ground arith

pub or_fail-eq-done :
    {B A : Type 0} (f : Err → Err) (m : Io B A) (w w2 : World B) (a : A)
    → or_fail f m w ≡ (done a, w2)
    → m w ≡ (done a, w2)
or_fail-eq-done f m w w2 a h = ground (arith, h)

-- To split on the outcome of a call and keep the equation.
pub Run-cases :
    {B A : Type 0} (r : Outcome A × World B)
    → ((a : A) × (w : World B) × (r ≡ (done a, w)))
      ⊎ ((e : Err) × (w : World B) × (r ≡ (failed e, w)))
Run-cases (done a, w) = inl (a, w, refl)
Run-cases (failed e, w) = inr (e, w, refl)

pub Outcome-cases :
    {A : Type 0} (r : Outcome A) → ((a : A) × (r ≡ done a)) ⊎ ((e : Err) × (r ≡ failed e))
Outcome-cases (done a) = inl (a, refl)
Outcome-cases (failed e) = inr (e, refl)

-- One step of a chain whose call succeeds, and of one whose call fails.
pub >>=-step :
    {B A C : Type 0} (m : Io B A) (f : A → Io B C) (w w1 : World B) (a : A)
    → m w ≡ (done a, w1)
    → (m >>= f) w ≡ f a w1
>>=-step m f w w1 a h = ground (arith, h)

pub >>=-stop :
    {B A C : Type 0} (m : Io B A) (f : A → Io B C) (w w1 : World B) (e : Err)
    → m w ≡ (failed e, w1)
    → (m >>= f) w ≡ (failed e, w1)
>>=-stop m f w w1 e h = ground (arith, h)

-- The receiver of a method: the pool, or the transaction that `WithTx` hands to its function.
pub data Handle : Type 0 where
  pool in_tx : Handle

module _ (env : Env) where
  abbrev pub W : Type 0
  W = World env.Bytes

  abbrev pub next : W → W
  next w = record w { tick = w.tick + 1 }

  -- One call to the outside: its failure, or what it does.
  abbrev pub outside : {A : Type 0} → (W → Outcome A × W) → Io env.Bytes A
  outside f w = elim (env.fault w.tick) [ none ↦ f (next w) | some e ↦ (failed e, next w) ]

  abbrev pub read : {A : Type 0} → (Db env.Bytes → Outcome A) → Io env.Bytes A
  read f = outside (λ w. (f w.view, w))

  -- The rows after a write of the pool are committed at once.
  abbrev pub settle : Handle → W → Db env.Bytes → W
  settle pool w db = record w { view = db; base = db }
  settle in_tx w db = record w { view = db }

  -- A statement that writes: its result and the rows after it, or its error.
  abbrev pub write :
      {A : Type 0} → Handle → (Db env.Bytes → Outcome (A × Db env.Bytes)) → Io env.Bytes A
  write h f =
      outside
        (λ w. elim (f w.view) [ done (a, db) ↦ (done a, settle h w db) | failed e ↦ (failed e, w) ])

  -- `time.Now()`.
  abbrev pub now : Io env.Bytes ℕ
  now w = (done (env.clock w.tick), next w)

  -- `uuid.New()`.
  abbrev pub new_uuid : Io env.Bytes Uuid
  new_uuid w = (done (env.fresh w.tick), next w)

  abbrev pub roll_back : W → W
  roll_back w = record w { view = w.base }

  -- What `WithTx` does with the outcome of its function: a commit, which may fail, or a rollback.
  abbrev pub close_tx : {A : Type 0} → Outcome A × W → Outcome A × W
  close_tx (failed e, w) = (failed e, roll_back w)
  close_tx (done a, w) = elim (env.fault w.tick) [
    | none ↦ (done a, record w { tick = w.tick + 1; base = w.view })
    | some e ↦ (failed e, roll_back (next w))
  ]

  unfoldable pub with_tx : {A : Type 0} → (Handle → Io env.Bytes A) → Io env.Bytes A
  with_tx body w = elim (env.fault w.tick) [
    | some e ↦ (failed (wrap "begin tx" e), next w)
    | none ↦ close_tx (body in_tx (next w))
  ]
