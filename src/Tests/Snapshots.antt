-- ===== src/Tests/Snapshots.antt =====
-- The balance snapshots of the ledger of the fixtures.
use btc_idx_service.Prelude.{some, [], ◌∷◌, ◌≡◌, refl, List, ℕ}
use btc_idx_service.Prelude.Int.{pos, ◌-ℤ◌, ◌+ℤ◌}
use btc_idx_service.Api.{TimeUnit, value_at, balance_snapshots, recent_day, hourly}
use btc_idx_service.Prelude.Run.{Returns}
use btc_idx_service.Ledger.Totals.{event_total, any_block}
use btc_idx_service.Tests.Fixtures.{ledger, ledger-IsBalanced}
use btc_idx_service.Api.History.{changes, change_at, balance_snapshots-shows}
use btc_idx_service.Ledger.{StatisticRow}

-- One day in hours, of an hour each, and every number parses.
abbrev hours : TimeUnit → TimeUnit → List ℕ
hours interval step = 1 ∷ 0 ∷ []

abbrev row : StatisticRow
row = record { address = 3; balance = pos 50; datetime_hour = 0; last_updated = 0 }

balance_snapshots-shows_example :
    Returns
      (λ m l'.
        (value_at 0 m
          ≡ some (
              event_total any_block 3 ledger.events
              -ℤ (changes (λ n. n) 3 (1 ∷ []) ledger.statistics +ℤ change_at (λ n. n) 3 0 [])))
        × (l' ≡ ledger))
      (balance_snapshots (λ u n. n) hours (λ n. some n) 3 recent_day hourly ledger)
balance_snapshots-shows_example =
    balance_snapshots-shows (λ u n. n) hours (λ n. some n) 3 recent_day hourly 3 ledger (1 ∷ []) []
      0 [] [] row tt refl ledger-IsBalanced refl tt refl refl tt
