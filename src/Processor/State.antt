-- ===== src/Processor/State.antt =====
-- What the processor works on: the database, the channel to the aggregator, and the faults that the
-- connection will show.
use btc_idx_service.Prelude.Run.{Run, Outcome, ok, err, panic, ◌>>=◌, raise, pure, ◌>>◌}
use btc_idx_service.Types.{Transaction, AggregatorMsg, Txid, Script, Address}
use btc_idx_service.Prelude.{Option, List, if◌then◌else◌, ◌++◌, some, Bool, ◌∷◌, [], ℕ, none, Perm}
use btc_idx_service.Sql.{Statement, SqlError, io}
use btc_idx_service.Chain.{Chain}
use btc_idx_service.Prelude.Int.{ℤ}

-- `processor::Error`.
pub data ProcessorError : Type 0 where
  rpc balance_overflow balance_underflow address_from_script address_parse send_event :
      ProcessorError
  other anyhow : ProcessorError
  sqlx : SqlError → ProcessorError

-- Code of the `bitcoin` and `chrono` crates and of `HashMap`: the id and the coinbase test of a
-- transaction, the taproot test and the address of a script on the configured network, the time of
-- a block (`none` out of chrono's range), and the order in which a map of balances is walked.
pub record Externals : Type 0 where
  pub compute_txid : Transaction → Txid
  pub is_coinbase : Transaction → Bool
  pub is_p2tr : Script → Bool
  pub from_script : Script → Option Address
  pub timestamp_opt : ℕ → Option ℕ
  pub walk : List (Address × ℤ) → List (Address × ℤ)

-- `faults` says of each coming database call whether the connection fails; past its end none does.
-- `receiving` says whether the aggregator still holds the receiving end of the channel.
pub record World : Type 0 where
  pub chain : Chain
  pub sent : List AggregatorMsg
  pub receiving : Bool
  pub faults : List Bool

abbrev pub M : Type 0 → Type 0
M A = Run World ProcessorError A

abbrev pub settle : {A : Type 0} → Outcome SqlError A × Chain → M A
settle (ok a, c) w = (ok a, record w { chain = c })
settle (err e, c) w = (err (sqlx e), record w { chain = c })
settle (panic, c) w = (panic, record w { chain = c })

-- One database call, by the next of the faults.
abbrev pub exec : {A : Type 0} → Statement Chain A → M A
exec q w = elim w.faults [
  | [] ↦ settle (q w.chain) w
  | fault ∷ rest ↦
      if fault
      then (err (sqlx io), record w { faults = rest })
      else settle (q w.chain) (record w { faults = rest })
]

-- `event_sender.send(…).unwrap()`.
abbrev pub send_unwrap : AggregatorMsg → M (Unit {0})
send_unwrap msg w =
    if w.receiving then (ok tt, record w { sent = w.sent ++ msg ∷ [] }) else (panic, w)

abbrev pub or_raise : {A : Type 0} → Option A → ProcessorError → M A
or_raise none e = raise e
or_raise (some a) e = pure a

-- How a transaction that began on the tables `c` ends: what is not committed is rolled back.
abbrev pub conclude :
    {A : Type 0} → Chain → Outcome ProcessorError A × World → Outcome ProcessorError A × World
conclude c (ok a, w) = (ok a, w)
conclude c (err e, w) = (err e, record w { chain = c })
conclude c (panic, w) = (panic, record w { chain = c })

-- `conn.begin()`, the body, `commit()`. Every other way out drops the transaction.
abbrev pub in_transaction : {A : Type 0} → M A → M A
in_transaction body w =
    conclude w.chain ((exec (pure tt) >> (body >>= λ a. exec (pure tt) >> pure a)) w)

-- `HashMap::into_iter` gives each entry once, in any order.
abbrev pub IsWalk : Externals → Type 0
IsWalk x = (l : List (Address × ℤ)) → Perm (x.walk l) l
