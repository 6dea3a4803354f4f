-- ===== src/Storage/Frame.antt =====
-- Which calls leave the committed rows alone, and what that makes of a transaction (`WithTx` of
-- internal/store/store.go).
use pace_poker.Prelude.{◌≡◌, refl, sym, ◌∙◌, inl, inr, arith, Option-cases}
use pace_poker.Storage.Errors.{Err}
use pace_poker.Storage.Env.{Env}
use pace_poker.Storage.Db.{Db}
use pace_poker.Storage.Io.{
  Outcome, done, failed, World, Io, ◌>>=◌, Handle, in_tx, W, next, with_tx, close_tx,
}

-- A call that commits nothing.
abbrev pub KeepsBase : {B A : Type 0} → Io B A → Type 0
KeepsBase {B} m = (w : World B) → (m w).1.base ≡ w.base

pub KeepsBase->>= :
    {B A C : Type 0} (m : Io B A) (f : A → Io B C)
    → KeepsBase m
    → ((a : A) → KeepsBase (f a))
    → KeepsBase (m >>= f)
KeepsBase->>= {B} {A} {C} m f km kf w = go (m w) (km w)
  where
    go :
        (r : Outcome A × World B)
        → r.1.base ≡ w.base
        → (elim r.0 as (λ _. Outcome C × World B) [
          | done a ↦ f a r.1
          | failed e ↦ (failed e, r.1)
        ]).1.base
          ≡ w.base
    go (done a, w1) e = kf a w1 ∙ e
    go (failed x, w1) e = e

-- A call that writes no row.
abbrev pub Reads : {B A : Type 0} → Io B A → Type 0
Reads {B} m = (w : World B) → ((m w).1.view ≡ w.view) × ((m w).1.base ≡ w.base)

pub Reads->>= :
    {B A C : Type 0} (m : Io B A) (f : A → Io B C)
    → Reads m
    → ((a : A) → Reads (f a))
    → Reads (m >>= f)
Reads->>= {B} {A} {C} m f km kf w = go (m w) (km w)
  where
    go :
        (r : Outcome A × World B)
        → (r.1.view ≡ w.view) × (r.1.base ≡ w.base)
        → ((elim r.0 as (λ _. Outcome C × World B) [
          | done a ↦ f a r.1
          | failed e ↦ (failed e, r.1)
        ]).1.view
            ≡ w.view)
          × ((elim r.0 as (λ _. Outcome C × World B) [
            | done a ↦ f a r.1
            | failed e ↦ (failed e, r.1)
          ]).1.base
              ≡ w.base)
    go (done a, w1) (v, e) = ((kf a w1).0 ∙ v, (kf a w1).1 ∙ e)
    go (failed x, w1) e = e

module _ (env : Env) where
  close_tx-failed :
      {A : Type 0} (r : Outcome A × W env) (w2 : W env) (e : Err)
      → close_tx env r ≡ (failed e, w2)
      → w2.base ≡ r.1.base
  close_tx-failed (failed x, w1) w2 e h = ground (arith, h)
  close_tx-failed (done a, w1) w2 e h = elim (Option-cases (env.fault w1.tick)) [
    | inl none_left ↦ ground (arith, h, none_left)
    | inr (x, fails) ↦ ground (arith, h, fails)
  ]

  -- A transaction whose body commits nothing by itself leaves the committed rows as they were where
  -- it fails.
  pub with_tx-failed :
      {A : Type 0} (body : Handle → Io env.Bytes A) (w w2 : W env) (e : Err)
      → KeepsBase (body in_tx)
      → with_tx env body w ≡ (failed e, w2)
      → w2.base ≡ w.base
  unfolding with_tx
  with_tx-failed body w w2 e k h = elim (Option-cases (env.fault w.tick)) [
    | inl begins ↦
        close_tx-failed (body in_tx (next env w)) w2 e (sym (rw (begins, with_tx) refl) ∙ h)
        ∙ k (next env w)
    | inr (x, fails) ↦ ground (arith, h, fails)
  ]

  close_tx-done :
      {A : Type 0} (r : Outcome A × W env) (w2 : W env) (a : A)
      → close_tx env r ≡ (done a, w2)
      → (w1 : W env) × (r ≡ (done a, w1)) × (w2.base ≡ w1.view) × (w2.view ≡ w1.view)
  close_tx-done (failed x, w1) w2 a h = ground (arith, h)
  close_tx-done (done b, w1) w2 a h = elim (Option-cases (env.fault w1.tick)) [
    | inl commits ↦
        (w1, ground (arith, h, commits), ground (arith, h, commits), ground (arith, h, commits))
    | inr (x, fails) ↦ ground (arith, h, fails)
  ]

  -- A transaction that succeeds has committed what its body saw at the end.
  pub with_tx-done :
      {A : Type 0} (body : Handle → Io env.Bytes A) (w w2 : W env) (a : A)
      → with_tx env body w ≡ (done a, w2)
      → (w1 : W env) × (body in_tx (next env w) ≡ (done a, w1))
        × (w2.base ≡ w1.view)
        × (w2.view ≡ w1.view)
  unfolding with_tx
  with_tx-done body w w2 a h = elim (Option-cases (env.fault w.tick)) [
    | inl begins ↦
        close_tx-done (body in_tx (next env w)) w2 a (sym (rw (begins, with_tx) refl) ∙ h)
    | inr (x, fails) ↦ ground (arith, h, fails)
  ]

  close_tx-keeps :
      {A : Type 0} (r : Outcome A × W env) (db : Db env.Bytes)
      → r.1.view ≡ db
      → r.1.base ≡ db
      → (close_tx env r).1.base ≡ db
  close_tx-keeps (failed x, w1) db v b = b
  close_tx-keeps (done a, w1) db v b = elim (Option-cases (env.fault w1.tick)) [
    | inl commits ↦ ground (arith, v, commits)
    | inr (x, fails) ↦ ground (arith, b, fails)
  ]

  -- A transaction whose body writes no row changes no committed row, whatever its outcome.
  pub with_tx-keeps :
      {A : Type 0} (body : Handle → Io env.Bytes A) (w : W env)
      → w.view ≡ w.base
      → (body in_tx (next env w)).1.view ≡ w.view
      → (body in_tx (next env w)).1.base ≡ w.base
      → (with_tx env body w).1.base ≡ w.base
  unfolding with_tx
  with_tx-keeps body w same v b = elim (Option-cases (env.fault w.tick)) [
    | inl begins ↦
        rw (begins, with_tx) (close_tx-keeps (body in_tx (next env w)) w.base (v ∙ same) b)
    | inr (x, fails) ↦ ground (arith, fails)
  ]
