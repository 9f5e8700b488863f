-- ===== src/Api/Defs.antt =====
-- The handler of aggregated/p2tr/{address} and its parts.
use btc_idx_service.Prelude.{
  none, some, [], ◌∷◌, ◌++◌, ◌==◌, ◌&&◌, List, Option, ℕ, if◌then◌else◌, unwrap_or,
}
use btc_idx_service.Prelude.Run.{ok, err, panic, ◌>>=◌, Run, Outcome, raise, pure}
use btc_idx_service.Prelude.Int.{pos, ℤ, ◌-ℤ◌}
use btc_idx_service.Sql.{row_not_found, decode, database, io, Statement, SqlError}
use btc_idx_service.Types.{Address}
use btc_idx_service.Ledger.{Ledger, StatisticRow, get_btc_balance}

-- `ApiError`, without the causes that its variants carry.
pub data ApiError : Type 0 where
  sql : SqlError → ApiError
  payload params_invalid missing reqwest_header serde unknown other : ApiError

-- The status of the response, by `ApiError::info`.
unfoldable pub status : ApiError → ℕ
status (sql row_not_found) = 404
status (sql decode) = 500
status (sql database) = 500
status (sql io) = 500
status payload = 400
status params_invalid = 400
status missing = 404
status reqwest_header = 500
status serde = 500
status unknown = 500
status other = 500

pub data TimeUnit : Type 0 where
  month week day hour : TimeUnit

-- `TimeSpan` is M, W or D, and `Granularity` W, D or H.
pub data TimeSpan : Type 0 where
  recent_month recent_week recent_day : TimeSpan

pub data Granularity : Type 0 where
  weekly daily hourly : Granularity

-- The interval and the step; the step interval is one step.
unfoldable pub window : TimeSpan → Granularity → Option (TimeUnit × TimeUnit)
window recent_month weekly = some (month, week)
window recent_month daily = some (month, day)
window recent_month hourly = some (month, hour)
window recent_week weekly = some (week, week)
window recent_week daily = some (week, day)
window recent_week hourly = some (week, hour)
window recent_day weekly = none
window recent_day daily = some (day, day)
window recent_day hourly = some (day, hour)

-- Rows of a time and a change.
abbrev pub Changes : Type 0
Changes = List (ℕ × ℤ)

-- The rows of a join with the time `t`, and that of a time without one.
abbrev pub joined : (ℕ → ℕ) → Address → ℕ → List StatisticRow → Changes
joined trunc a t [] = []
joined trunc a t (r ∷ rs) =
    let rest = joined trunc a t rs in
    if trunc r.datetime_hour == t && r.address == a then (t, r.balance) ∷ rest else rest

abbrev pub or_zero : ℕ → Changes → Changes
or_zero t [] = (t, pos 0) ∷ []
or_zero t (c ∷ cs) = c ∷ cs

abbrev pub left_join : (ℕ → ℕ) → Address → List StatisticRow → List ℕ → Changes
left_join trunc a rs [] = []
left_join trunc a rs (t ∷ ts) = or_zero t (joined trunc a t rs) ++ left_join trunc a rs ts

-- The map of a JSON object: of the entries with one key the newest counts.
abbrev pub JsonMap : Type 0
JsonMap = List (ℕ × ℤ)

abbrev pub value_at : ℕ → JsonMap → Option ℤ
value_at k [] = none
value_at k ((k', v) ∷ m) = if k' == k then some v else value_at k m

-- The loop over the rows, from the newest on.
unfoldable pub insert_snapshots : ℤ → Changes → JsonMap → JsonMap
insert_snapshots running_balance [] snapshots = snapshots
insert_snapshots running_balance ((datetime, change) ∷ rows) snapshots =
    insert_snapshots (running_balance -ℤ change) rows ((datetime, running_balance) ∷ snapshots)

abbrev pub on_database : {A : Type 0} → Statement Ledger A → Run Ledger ApiError A
on_database q l = settled (q l)
  where
    settled : {A : Type 0} → Outcome SqlError A × Ledger → Outcome ApiError A × Ledger
    settled (ok a, l') = (ok a, l')
    settled (err e, l') = (err (sql e), l')
    settled (panic, l') = (panic, l')

-- PostgreSQL's `date_trunc`, its series of times from `now()` back, the newest first, and the
-- parser of an address are arguments.
module _ (date_trunc : TimeUnit → ℕ → ℕ) (series : TimeUnit → TimeUnit → List ℕ)
    (parse : ℕ → Option Address) where
  unfoldable pub get_balance_snapshots : Address → TimeUnit → TimeUnit → Statement Ledger Changes
  get_balance_snapshots address interval step l =
      (ok (left_join (date_trunc step) address l.statistics (series interval step)), l)

  unfoldable pub balance_snapshots : ℕ → TimeSpan → Granularity → Run Ledger ApiError JsonMap
  balance_snapshots text time_span granularity = elim (window time_span granularity) [
    | none ↦ raise params_invalid
    | some (interval, step) ↦ elim (parse text) [
      | none ↦ raise params_invalid
      | some address ↦ do
        total ← on_database (get_btc_balance address)
        rows ← on_database (get_balance_snapshots address interval step)
        pure (insert_snapshots (unwrap_or total (pos 0)) rows [])
    ]
  ]
