-- ===== src/ConfigTable.antt =====
-- core/src/sqlx_postgres/mod.rs: the table `config` and its two queries.
pub mod Stored
use btc_idx_service.Prelude.{
  none, some, ◌∷◌, ◌==◌, List, Bool, Option, ℕ, if◌then◌else◌, exists, find,
}
use btc_idx_service.Sql.{Statement, update, ensure_affected, count, decode}
use btc_idx_service.Prelude.Run.{pure, raise}

-- Key: `key`. `value` is the column `data`, with its JSON as a number.
pub record ConfigRow : Type 0 where
  pub key : ℕ
  pub value : ℕ

abbrev pub has_key : ℕ → ConfigRow → Bool
has_key key r = r.key == key

abbrev pub row_of : ℕ → ℕ → ConfigRow
row_of key value = record { key = key; value = value }

-- `INSERT … ON CONFLICT (key) DO UPDATE`: the rows after it, and how many it affects.
abbrev pub write : ℕ → ℕ → List ConfigRow → List ConfigRow
write key value rows =
    if exists (has_key key) rows
    then update (has_key key) (λ r. record r { value = value }) rows
    else row_of key value ∷ rows

abbrev pub affected : ℕ → List ConfigRow → ℕ
affected key rows = if exists (has_key key) rows then count (has_key key) rows else 1

module _ {U : Type 0} where
  abbrev pub decoded : Option U → Statement (List ConfigRow) (Option U)
  decoded none = raise decode
  decoded (some u) = pure (some u)

  -- `Json<U>` of a row, or no row.
  abbrev pub read : (ℕ → Option U) → Option ConfigRow → Statement (List ConfigRow) (Option U)
  read deserialize none = pure none
  read deserialize (some r) = decoded (deserialize r.value)

  unfoldable pub upsert_config : (U → ℕ) → ℕ → U → Statement (List ConfigRow) (Unit {0})
  upsert_config serialize key value rows =
      ensure_affected 1 (affected key rows) (write key (serialize value) rows)

  unfoldable pub get_config : (ℕ → Option U) → ℕ → Statement (List ConfigRow) (Option U)
  get_config deserialize key rows = read deserialize (find (has_key key) rows) rows
