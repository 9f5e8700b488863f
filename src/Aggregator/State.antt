-- ===== src/Aggregator/State.antt =====
-- What the aggregator works on: the database, its own counter, the clock, and the faults that the
-- connection will show.
use btc_idx_service.Prelude.{[], suc, ◌∷◌, List, Bool, ℕ, if◌then◌else◌}
use btc_idx_service.Prelude.Run.{ok, err, panic, Outcome, Run, pure, ◌>>◌, ◌>>=◌}
use btc_idx_service.Ledger.{Ledger}
use btc_idx_service.Sql.{Statement, SqlError, io}

-- `aggregator::Error`.
pub data AggregatorError : Type 0 where
  sqlx : SqlError → AggregatorError
  other : AggregatorError

-- `clock` gives the nanoseconds since the epoch at each reading of `Utc::now()`, of which `readings`
-- have been taken. `faults` says of each coming database call whether the connection fails.
pub record Aggregator : Type 0 where
  pub ledger : Ledger
  pub last_block_number : ℕ
  pub clock : ℕ → ℕ
  pub readings : ℕ
  pub faults : List Bool

abbrev pub M : Type 0 → Type 0
M A = Run Aggregator AggregatorError A

abbrev pub settle : {A : Type 0} → Outcome SqlError A × Ledger → M A
settle (ok a, l) g = (ok a, record g { ledger = l })
settle (err e, l) g = (err (sqlx e), record g { ledger = l })
settle (panic, l) g = (panic, record g { ledger = l })

-- One database call, by the next of the faults.
abbrev pub exec : {A : Type 0} → Statement Ledger A → M A
exec q g = elim g.faults [
  | [] ↦ settle (q g.ledger) g
  | fault ∷ rest ↦
      if fault
      then (err (sqlx io), record g { faults = rest })
      else settle (q g.ledger) (record g { faults = rest })
]

-- `Utc::now()`.
abbrev pub now : M ℕ
now g = (ok (g.clock g.readings), record g { readings = suc g.readings })

-- A rollback restores the tables; the numbers that a sequence has given out stay used.
abbrev pub roll_back : Ledger → Ledger → Ledger
roll_back before after = record before { next_sequence = after.next_sequence }

abbrev pub conclude :
    {A : Type 0}
    → Ledger
    → Outcome AggregatorError A × Aggregator
    → Outcome AggregatorError A × Aggregator
conclude l (ok a, g) = (ok a, g)
conclude l (err e, g) = (err e, record g { ledger = roll_back l g.ledger })
conclude l (panic, g) = (panic, record g { ledger = roll_back l g.ledger })

-- `pool.begin()`, the body, `commit()`. Every other way out drops the transaction.
abbrev pub in_transaction : {A : Type 0} → M A → M A
in_transaction body g =
    conclude g.ledger ((exec (pure tt) >> (body >>= λ a. exec (pure tt) >> pure a)) g)
