-- ===== src/Sql.antt =====
-- core/src/sqlx_postgres/mod.rs: results of statements and `ensure_affected`, and what the queries
-- of core/src/sqlx_postgres/bitcoin.rs use of SQL: conditional update and delete over a table.
use btc_idx_service.Prelude.{
  ℕ, suc, ◌-◌, ◌%◌, ◌^◌, Bool, not, List, [], ◌∷◌, ◌==◌, ltb, if◌then◌else◌, select,
}
use btc_idx_service.Prelude.Int.{ℤ, pos, negsuc}
use btc_idx_service.Prelude.Run.{Run, pure, raise}

-- The kinds of `sqlx::Error` that the code tells apart: no row or a wrong number of rows, a value
-- that does not decode, an error of the database (a violated constraint, a value out of range),
-- and the loss of the connection.
pub data SqlError : Type 0 where
  row_not_found decode database io : SqlError

abbrev pub Statement : Type 0 → Type 0 → Type 0
Statement D A = Run D SqlError A

abbrev pub ensure_affected : {D : Type 0} → ℕ → ℕ → Statement D (Unit {0})
ensure_affected count rows_affected =
    if rows_affected == count then pure tt else raise row_not_found

module _ {R : Type 0} where
  -- `SELECT count(*) … WHERE p`: the rows that an `UPDATE` or `DELETE` affects.
  abbrev pub count : (R → Bool) → List R → ℕ
  count p [] = 0
  count p (r ∷ rs) = if p r then suc (count p rs) else count p rs

  -- `UPDATE … SET f WHERE p`.
  abbrev pub update : (R → Bool) → (R → R) → List R → List R
  update p f [] = []
  update p f (r ∷ rs) = (if p r then f r else r) ∷ update p f rs

  -- `DELETE … WHERE p`.
  abbrev pub delete : (R → Bool) → List R → List R
  delete p rs = select (λ r. not (p r)) rs

-- `n as i64` for a `usize`: two's complement.
abbrev pub as_i64 : ℕ → ℤ
as_i64 n = if ltb n (2 ^ 63) then pos n else negsuc (2 ^ 64 - n - 1)

-- `n as i32` for a `usize`.
abbrev pub as_i32 : ℕ → ℤ
as_i32 n = wrap (n % 2 ^ 32)
  where
    wrap : ℕ → ℤ
    wrap k = if ltb k (2 ^ 31) then pos k else negsuc (2 ^ 32 - k - 1)
