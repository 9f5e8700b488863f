-- ===== src/Api/Snapshots.antt =====
-- What the snapshots of a balance show.
use btc_idx_service.Prelude.{
  some, [], false, ◌∷◌, ◌≡◌, ◌++◌, ◌==◌, ◌∙◌, refl, ℕ, All, ==_iff, ap, none, inl, inr, List,
  Option, unwrap_or, find, Bool-cases,
}
use btc_idx_service.Prelude.Int.{pos, ℤ, ◌+ℤ◌, ◌-ℤ◌, int_laws}
use btc_idx_service.Api.Defs.{
  Changes, insert_snapshots, JsonMap, value_at, TimeUnit, balance_snapshots, get_balance_snapshots,
  TimeSpan, Granularity, window, left_join,
}
use btc_idx_service.Ledger.Totals.{balance_at, event_total, any_block}
use btc_idx_service.Types.{Address}
use btc_idx_service.Ledger.{BalanceRow, get_btc_balance, Ledger}
use btc_idx_service.Aggregator.Balanced.{IsBalanced}
use btc_idx_service.Prelude.Run.{Returns}

abbrev pub sum_of : Changes → ℤ
sum_of [] = pos 0
sum_of ((t, c) ∷ rows) = c +ℤ sum_of rows

-- No row has the time `t`.
abbrev pub IsAbsent : ℕ → Changes → Type 0
IsAbsent t rows = All (λ (r : ℕ × ℤ). (r.0 == t) ≡ false) rows

minus_zero : (v : ℤ) → v ≡ v -ℤ pos 0
minus_zero v = omega int_laws

minus_twice : (v c s : ℤ) → v -ℤ c -ℤ s ≡ v -ℤ (c +ℤ s)
minus_twice v c s = omega int_laws

insert_snapshots-absent :
    (t : ℕ) (running : ℤ) (rows : Changes) (m : JsonMap)
    → IsAbsent t rows
    → value_at t (insert_snapshots running rows m) ≡ value_at t m
unfolding insert_snapshots
insert_snapshots-absent t running [] m h = refl
insert_snapshots-absent t running ((t', c) ∷ rows) m h =
    insert_snapshots-absent t (running -ℤ c) rows ((t', running) ∷ m) h.1 ∙ rw (h.0) refl

-- The snapshot of a time is the present balance less the changes of all rows before the last row of
-- this time, those of the same time included.
pub insert_snapshots-value_at :
    (newer older : Changes) (t : ℕ) (c total : ℤ) (m : JsonMap)
    → IsAbsent t older
    → value_at t (insert_snapshots total (newer ++ (t, c) ∷ older) m) ≡ some (total -ℤ sum_of newer)
unfolding insert_snapshots
insert_snapshots-value_at [] older t c total m h =
    insert_snapshots-absent t (total -ℤ c) older ((t, total) ∷ m) h
    ∙ rw ((==_iff t t).1 refl) (ap some (minus_zero total))
insert_snapshots-value_at ((t', c') ∷ newer) older t c total m h =
    insert_snapshots-value_at newer older t c (total -ℤ c') ((t', total) ∷ m) h
    ∙ ap some (minus_twice total c' (sum_of newer))

-- The total that the handler starts from.
abbrev pub reported : Address → List BalanceRow → ℤ
reported a rs =
    unwrap_or
      (elim (find (λ r. r.address == a) rs) as (λ _. Option ℤ) [
        | none ↦ none
        | some r ↦ some r.balance
      ])
      (pos 0)

pub get_btc_balance_lem : (a : Address) (rs : List BalanceRow) → reported a rs ≡ balance_at a rs
unfolding balance_at
get_btc_balance_lem a [] = refl
get_btc_balance_lem a (r ∷ rs) = elim (Bool-cases (r.address == a)) [
  | inl e ↦ rw e refl
  | inr e ↦ rw e (get_btc_balance_lem a rs)
]

module _ (date_trunc : TimeUnit → ℕ → ℕ) (series : TimeUnit → TimeUnit → List ℕ)
    (parse : ℕ → Option Address) where
  -- On a ledger whose balances are the sums of the recorded events, the handler returns, for a window
  -- it knows and an address that parses, and shows at each time of its rows the sum of all recorded
  -- events of the address less the changes of the rows before the last row of this time. It changes
  -- no table.
  pub balance_snapshots-Returns :
      (text : ℕ) (span : TimeSpan) (granularity : Granularity) (interval step : TimeUnit)
      (a : Address) (l : Ledger) (newer older : Changes) (t : ℕ) (c : ℤ)
      → window span granularity ≡ some (interval, step)
      → parse text ≡ some a
      → IsBalanced l
      → left_join (date_trunc step) a l.statistics (series interval step) ≡ newer ++ (t, c) ∷ older
      → IsAbsent t older
      → Returns
          (λ m l'.
            (value_at t m ≡ some (event_total any_block a l.events -ℤ sum_of newer)) × (l' ≡ l))
          (balance_snapshots date_trunc series parse text span granularity l)
  unfolding balance_snapshots get_balance_snapshots get_btc_balance
  balance_snapshots-Returns text span granularity interval step a l newer older t c known parses
        balanced rows last_row =
      rw (known, balance_snapshots, parses)
        (
          ap (λ rs. value_at t (insert_snapshots (reported a l.balances) rs [])) rows
              ∙ insert_snapshots-value_at newer older t c _ [] last_row
              ∙ ap (λ v. some (v -ℤ sum_of newer))
                  (get_btc_balance_lem a l.balances ∙ balanced.total a),
          refl,
        )
