-- ===== src/Tests/Messages.antt =====
-- The aggregator on the ledger of the fixtures.
use mathlib.Core.List.Perm
use btc_idx_service.Aggregator.Task.{Arrival, message, notified, run, run-Refines}
use btc_idx_service.Aggregator.Book.{start-Refines, Refines, post_all}
use btc_idx_service.Prelude.{[], true, false, ◌∷◌, ◌≡◌, refl, arith, List}
use btc_idx_service.Prelude.Run.{panic, Holds, Returns, err}
use btc_idx_service.Prelude.Int.{pos, ◌+ℤ◌}
use btc_idx_service.Processor.{sqlx}
use btc_idx_service.Aggregator.Faults.{commit_pending_events_loses}
use btc_idx_service.Types.{
  AggregatorMsg, P2trEvent, event, new_event, receive, reorg_from, action_try_from,
}
use btc_idx_service.Aggregator.{
  handle_reorg, start, cleanup, handle_event, Aggregator, commit_pending_events, sqlx,
}
use btc_idx_service.Aggregator.Balanced.{IsBalanced, start-cleanup-IsBalanced}
use btc_idx_service.Aggregator.Worth.{worth, handle_event-Grows}
use btc_idx_service.Tests.Fixtures.{
  aggregator, in_order, ledger, in_order-IsArrangement, ledger-IsBalanced, aggregator-IsQuiet,
}
use btc_idx_service.Aggregator.Reorg.{Reverted, handle_reorg_panics, handle_reorg-Reverted}
use btc_idx_service.Sql.{io}
use btc_idx_service.Aggregator.Recovery.{handle_reorg-Returns}

abbrev received : P2trEvent
received = new_event 5 9 4 (pos 20) receive false

abbrev coinbase : P2trEvent
coinbase = new_event 5 8 5 (pos 60) receive true

abbrev messages : List AggregatorMsg
messages = event coinbase ∷ event received ∷ []

start-cleanup-IsBalanced_example :
    IsBalanced (start in_order messages aggregator).1.ledger
    × IsBalanced
        (cleanup in_order (reorg_from 5 ∷ []) (start in_order messages aggregator).1).1.ledger
start-cleanup-IsBalanced_example =
    start-cleanup-IsBalanced in_order messages (reorg_from 5 ∷ []) aggregator ledger-IsBalanced

handle_event-Grows_example :
    Holds
      (λ _ g'. worth 4 g'.ledger ≡ worth 4 aggregator.ledger +ℤ pos 20)
      (handle_event in_order received aggregator)
handle_event-Grows_example =
    handle_event-Grows in_order in_order-IsArrangement 4 received aggregator

handle_reorg-Reverted_example :
    Holds
      (λ _ g'. Reverted 4 g'.last_block_number ledger g'.ledger)
      (handle_reorg in_order 4 aggregator)
handle_reorg-Reverted_example = handle_reorg-Reverted in_order in_order-IsArrangement 4 aggregator

handle_reorg_panics_example : (handle_reorg in_order 5 aggregator).0 ≡ panic
handle_reorg_panics_example =
    handle_reorg_panics in_order in_order-IsArrangement 5 aggregator refl refl

-- A coinbase event of block 5 that waits, at a tip of 105, and a connection that fails at the
-- second call.
abbrev waiting : Aggregator
waiting = record aggregator {
  ledger = record ledger {
    pending =
        record {
          block_number = 5;
          tx_hash = 8;
          address = 5;
          amount = pos 60;
          action = pos 1;
          is_coinbase = true;
        }
        ∷ [];
  };
  last_block_number = 105;
  faults = false ∷ true ∷ [];
}

commit_pending_events_loses_example :
    commit_pending_events in_order waiting
    ≡ (err (sqlx io), record waiting { ledger = record ledger { pending = [] }; faults = [] })
unfolding action_try_from
commit_pending_events_loses_example =
    commit_pending_events_loses in_order waiting coinbase [] [] (omega arith) refl refl

handle_reorg-Returns_example :
    Returns
      (λ _ g'. Reverted 4 g'.last_block_number ledger g'.ledger)
      (handle_reorg in_order 4 aggregator)
unfolding action_try_from
handle_reorg-Returns_example =
    handle_reorg-Returns in_order in_order-IsArrangement 4 aggregator aggregator-IsQuiet
      ((receive, refl), tt) refl

-- The signal comes after the first message.
abbrev arrivals : List Arrival
arrivals = message (event coinbase) ∷ notified ∷ message (event received) ∷ []

run-Refines_example :
    Returns
      (λ _ g'. Refines g' (post_all (coinbase ∷ received ∷ []) (λ a. worth a ledger)))
      (run in_order arrivals aggregator)
    × (run in_order arrivals aggregator ≡ start in_order messages aggregator)
run-Refines_example =
    run-Refines in_order in_order-IsArrangement arrivals (coinbase ∷ received ∷ []) aggregator
      (λ a. worth a ledger) refl aggregator-IsQuiet (λ a. refl)

start-Refines_example :
    Returns
      (λ _ g'. Refines g' (post_all (received ∷ coinbase ∷ []) (λ a. worth a ledger)))
      (start in_order messages aggregator)
start-Refines_example =
    start-Refines in_order in_order-IsArrangement (received ∷ coinbase ∷ [])
      (coinbase ∷ received ∷ []) aggregator (λ a. worth a ledger) (Perm.swap coinbase received [])
      aggregator-IsQuiet (λ a. refl)
