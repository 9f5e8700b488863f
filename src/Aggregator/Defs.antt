-- ===== src/Aggregator/Defs.antt =====
-- The methods of `Aggregator`.
use btc_idx_service.Prelude.{
  none, some, [], ◌∷◌, ◌-◌, List, ℕ, if◌then◌else◌, ◌%◌, ltb, last, is_empty,
}
use btc_idx_service.Prelude.Run.{ok, err, panic, ◌>>=◌, ◌>>◌, Outcome, pure}
use btc_idx_service.Aggregator.State.{M, AggregatorError, exec, now, in_transaction, Aggregator}
use btc_idx_service.Types.{P2trEvent, AggregatorMsg, event, reorg_event, reorg_from}
use btc_idx_service.Ledger.{
  create_pending_p2tr_event, get_p2tr_events_since_block, pull_pending_p2tr_events,
  create_p2tr_event, increment_btc_balance, increment_static_balances,
}

unfoldable pub insert_pending_event : P2trEvent → M (Unit {0})
insert_pending_event e = exec (create_pending_p2tr_event e)

unfoldable pub insert_event : P2trEvent → M (Unit {0})
insert_event e = exec (create_p2tr_event e) >> pure tt

unfoldable pub update_total_balance : P2trEvent → M (Unit {0})
update_total_balance e = do t ← now; exec (increment_btc_balance e.address e.amount t)

-- `with_minute(0)`, `with_second(0)`, `with_nanosecond(0)` of a time in UTC.
abbrev pub hour_of : ℕ → ℕ
hour_of t = t - t % 3_600_000_000_000

unfoldable pub update_statistic_balance_change : P2trEvent → M (Unit {0})
update_statistic_balance_change e = do
  t ← now
  exec (increment_static_balances e.address e.amount (hour_of t) t)

-- The three calls that record a settled event.
unfoldable pub record_event : P2trEvent → M (Unit {0})
record_event e = do insert_event e; update_total_balance e; update_statistic_balance_change e

unfoldable pub record_events : List P2trEvent → M (Unit {0})
record_events [] = pure tt
record_events (e ∷ es) = do record_event e; record_events es

abbrev set_last_block_number : ℕ → M (Unit {0})
set_last_block_number n g = (ok tt, record g { last_block_number = n })

abbrev pub reorg_all : List P2trEvent → List P2trEvent
reorg_all [] = []
reorg_all (e ∷ es) = reorg_event e ∷ reorg_all es

-- `events.last().unwrap()` panics where the query returned no event.
abbrev pub last_block_of : List P2trEvent → M ℕ
last_block_of es g = elim (last es) [ none ↦ (panic, g) | some e ↦ (ok e.block_number, g) ]

-- Errors are dropped; a panic is not caught.
abbrev pub ignore_error :
    Outcome AggregatorError (Unit {0}) × Aggregator
    → Outcome AggregatorError (Unit {0}) × Aggregator
ignore_error (err e, g) = (ok tt, g)
ignore_error (ok a, g) = (ok a, g)
ignore_error (panic, g) = (panic, g)

-- `arrange` is the order in which the database returns rows where a query asks for none.
module _ (arrange : List P2trEvent → List P2trEvent) where
  -- The pull runs on the pool, outside the transaction that records what it pulled.
  unfoldable pub commit_pending_events : M (Unit {0})
  commit_pending_events g =
      if ltb g.last_block_number 100
      then (ok tt, g)
      else (do
        pulled ← exec (pull_pending_p2tr_events (g.last_block_number - 100))
        if is_empty pulled then pure tt else in_transaction (record_events (arrange pulled)))
          g

  abbrev pub advance : ℕ → M (Unit {0})
  advance n g =
      if ltb g.last_block_number n
      then (set_last_block_number n >> commit_pending_events) g
      else (ok tt, g)

  unfoldable pub handle_event : P2trEvent → M (Unit {0})
  handle_event e = do
    in_transaction (if e.is_coinbase then insert_pending_event e else record_event e)
    advance e.block_number

  unfoldable pub reorg_body : ℕ → M ℕ
  reorg_body block_number = do
    fetched ← exec (get_p2tr_events_since_block block_number)
    last_block_number ← last_block_of (arrange fetched)
    record_events (reorg_all (arrange fetched))
    exec (pull_pending_p2tr_events last_block_number)
    pure last_block_number

  unfoldable pub handle_reorg : ℕ → M (Unit {0})
  handle_reorg block_number = do
    last_block_number ← in_transaction (reorg_body block_number)
    set_last_block_number last_block_number

  unfoldable pub handle_message : AggregatorMsg → M (Unit {0})
  handle_message (event e) = handle_event e
  handle_message (reorg_from n) = handle_reorg n

  -- The loop of `start` on the messages that arrive before the channel closes: the first error ends it.
  unfoldable pub start : List AggregatorMsg → M (Unit {0})
  start [] = pure tt
  start (m ∷ ms) = do handle_message m; start ms

  -- The loop of `cleanup` on the messages that are left.
  unfoldable pub cleanup : List AggregatorMsg → M (Unit {0})
  cleanup [] = pure tt
  cleanup (m ∷ ms) = do (λ g. ignore_error (handle_message m g)); cleanup ms
