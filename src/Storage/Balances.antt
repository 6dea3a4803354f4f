-- ===== src/Storage/Balances.antt =====
-- What the statements that move chips do to the balances (internal/store/pgstore/
-- user_snapshots.sql.go), and with them `DebitUserBalance` and `CreditUserBalance`.
use pace_poker.Prelude.{
  ℕ, ◌%◌, Int64, Option, none, some, List, [], ◌∷◌, ◌≡◌, ◌≢◌, refl, inl, inr, arith, m64, add64,
  sub64, lt64, Option-cases, if◌then◌else◌,
}
use pace_poker.Storage.Env.{Env, Uuid}
use pace_poker.Storage.Db.{Db, BalanceRow}
use pace_poker.Storage.Io.{
  Outcome, done, >>=-eq-done, or_fail-eq-done, or_fail, pure, Handle, pool, in_tx, W, next, write,
}
use pace_poker.Storage.UserQueries.{
  find_balance, replace_balance, debit_balance_row, credit_balance_row, get_balance_row,
  apply_deposit_row,
}
use pace_poker.Storage.Events.{or_not_found}
use pace_poker.Storage.Accounts.{
  UserSnapshot, row_to_user_snapshot, or_insufficient, debit_user_balance, credit_user_balance,
  get_user_snapshot,
}

abbrev pub chips_of : Option BalanceRow → ℕ
chips_of none = 0
chips_of (some r) = r.chip_balance

-- The balance of a user, 0 for nobody.
abbrev pub balance_of : {B : Type 0} → Uuid → Db B → ℕ
balance_of id db = chips_of (find_balance id db.balances)

find-replace :
    (id : Uuid) (r x : BalanceRow) (rows : List BalanceRow)
    → r.user_id ≡ id
    → find_balance id rows ≡ some x
    → find_balance id (replace_balance r rows) ≡ some r
find-replace id r x [] u h = ground (arith, h)
find-replace id r x (y ∷ rows) u h = ground (arith, u, h, find-replace id r x rows u)

find-user :
    (id : Uuid) (x : BalanceRow) (rows : List BalanceRow)
    → find_balance id rows ≡ some x
    → x.user_id ≡ id
find-user id x [] h = ground (arith, h)
find-user id x (y ∷ rows) h = ground (arith, h, find-user id x rows)

find-replace_other :
    (r : BalanceRow) (id : Uuid) (rows : List BalanceRow)
    → r.user_id ≢ id
    → find_balance id (replace_balance r rows) ≡ find_balance id rows
find-replace_other r id [] n = refl
find-replace_other r id (y ∷ rows) n = ground (arith, n, find-replace_other r id rows n)

module _ {B : Type 0} where
  -- The row of the answer is the user's, and only the balance has changed.
  debit_row-moves :
      (id : Uuid) (x : Int64) (at : ℕ) (db db2 : Db B) (r : BalanceRow)
      → debit_balance_row id x at db ≡ done (r, db2)
      → (r.chip_balance ≡ balance_of id db2)
        × (add64 (balance_of id db2) x ≡ balance_of id db % m64)
        × (db2.events ≡ db.events)
  unfolding debit_balance_row
  debit_row-moves id x at db db2 r h = elim (Option-cases (find_balance id db.balances)) [
    | inl e ↦ ground (arith, h, e)
    | inr (y, e) ↦
        let u = find-user id y db.balances e in
        let new : BalanceRow = record y {
          chip_balance = sub64 y.chip_balance x;
          last_activity_at = at;
        } in
        ground (arith, h, e, u, find-replace id new y db.balances u e)
  ]

  -- As for a debit, with the chips going the other way.
  credit_row-moves :
      (id : Uuid) (x : Int64) (at : ℕ) (db db2 : Db B) (r : BalanceRow)
      → credit_balance_row id x at db ≡ done (r, db2)
      → (r.chip_balance ≡ balance_of id db2)
        × (balance_of id db2 ≡ add64 (balance_of id db) x)
        × (db2.events ≡ db.events)
  unfolding credit_balance_row
  credit_row-moves id x at db db2 r h = elim (Option-cases (find_balance id db.balances)) [
    | inl e ↦ ground (arith, h, e)
    | inr (y, e) ↦
        let u = find-user id y db.balances e in
        let new : BalanceRow = record y {
          chip_balance = add64 y.chip_balance x;
          last_activity_at = at;
        } in
        ground (arith, h, e, u, find-replace id new y db.balances u e)
  ]

  -- A deposit adds its chips to the balance.
  pub apply_deposit_row-moves :
      (id : Uuid) (x : Int64) (at : ℕ) (db db2 : Db B) (r : BalanceRow)
      → apply_deposit_row id x at db ≡ done (r, db2)
      → (r.chip_balance ≡ balance_of id db2)
        × (balance_of id db2 ≡ add64 (balance_of id db) x)
        × (db2.reports ≡ db.reports)
  unfolding apply_deposit_row
  apply_deposit_row-moves id x at db db2 r h = elim (Option-cases (find_balance id db.balances)) [
    | inl e ↦ ground (arith, h, e)
    | inr (y, e) ↦
        let u = find-user id y db.balances e in
        let new : BalanceRow = record y {
          chip_balance = add64 y.chip_balance x;
          total_deposited = add64 y.total_deposited x;
          total_reports = add64 y.total_reports 1;
          last_deposit_at = if lt64 0 x then some at else y.last_deposit_at;
          last_activity_at = at;
        } in
        ground (arith, h, e, u, find-replace id new y db.balances u e)
  ]

module _ (env : Env) where
  -- A write that succeeds has run its statement.
  pub write-done :
      {A : Type 0} (h : Handle) (f : Db env.Bytes → Outcome (A × Db env.Bytes)) (w w2 : W env)
      (a : A)
      → write env h f w ≡ (done a, w2)
      → f w.view ≡ done (a, w2.view)
  write-done pool f w w2 a e = ground (arith, e)
  write-done in_tx f w w2 a e = ground (arith, e)

  pub debit_user_balance-moves :
      (h : Handle) (id : Uuid) (x : Int64) (w w2 : W env) (snap : UserSnapshot)
      → debit_user_balance env h id x w ≡ (done snap, w2)
      → (snap.chip_balance ≡ balance_of id w2.view)
        × (add64 (balance_of id w2.view) x ≡ balance_of id w.view % m64)
        × (w2.view.events ≡ w.view.events)
  unfolding debit_user_balance
  debit_user_balance-moves h id x w w2 snap e =
      let run = write env h (debit_balance_row id x (env.clock w.tick)) in
      let (row, w1, e1, e2) =
        >>=-eq-done (or_fail or_insufficient run) (λ row. pure (row_to_user_snapshot row))
          (next env w) w2 e in
      let ran =
        write-done h (debit_balance_row id x (env.clock w.tick)) (next env w) w1 row
          (or_fail-eq-done or_insufficient run (next env w) w1 row e1) in
      let moves = debit_row-moves id x (env.clock w.tick) w.view w1.view row ran in
      ground (arith, e2, moves)

  pub credit_user_balance-moves :
      (h : Handle) (id : Uuid) (x : Int64) (w w2 : W env) (snap : UserSnapshot)
      → credit_user_balance env h id x w ≡ (done snap, w2)
      → (snap.chip_balance ≡ balance_of id w2.view)
        × (balance_of id w2.view ≡ add64 (balance_of id w.view) x)
        × (w2.view.events ≡ w.view.events)
  unfolding credit_user_balance
  credit_user_balance-moves h id x w w2 snap e =
      let run = write env h (credit_balance_row id x (env.clock w.tick)) in
      let wrapped = or_not_found "credit user balance" in
      let (row, w1, e1, e2) =
        >>=-eq-done (or_fail wrapped run) (λ row. pure (row_to_user_snapshot row)) (next env w) w2
          e in
      let ran =
        write-done h (credit_balance_row id x (env.clock w.tick)) (next env w) w1 row
          (or_fail-eq-done wrapped run (next env w) w1 row e1) in
      let moves = credit_row-moves id x (env.clock w.tick) w.view w1.view row ran in
      ground (arith, e2, moves)

  pub get_user_snapshot-reads :
      (id : Uuid) (w w2 : W env) (snap : UserSnapshot)
      → get_user_snapshot env id w ≡ (done snap, w2)
      → (snap.chip_balance ≡ balance_of id w2.view) × (w2.view ≡ w.view)
  unfolding get_user_snapshot get_balance_row
  get_user_snapshot-reads id w w2 snap e = ground (arith, e)
