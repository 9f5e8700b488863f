-- ===== src/Tests/Service.antt =====
-- The processor and the aggregator of the fixtures together.
use btc_idx_service.Tests.Fixtures.{
  world, externals, block, aggregator, externals-IsWalk, in_order, in_order-IsArrangement, chain,
}
use btc_idx_service.Prelude.{[], true, false, ◌∷◌, refl, List, ◌≡◌, Bool}
use btc_idx_service.Prelude.Int.{pos, negsuc, ◌+ℤ◌, ◌-ℤ◌}
use btc_idx_service.System.Interleaving.{
  Service, IsBooked, Reach-IsBooked, Reach, next, here, commits, handles, failed_block_is_counted,
}
use btc_idx_service.Aggregator.Worth.{worth}
use btc_idx_service.Types.{AggregatorMsg, event, new_event, send, receive}
use btc_idx_service.Processor.{
  World, process, process_block, index_transactions, process_transactions, spend_inputs,
  create_outputs, send_events, set_balance, action_of, sqlx,
}
use btc_idx_service.Aggregator.{
  handle_message, handle_event, insert_pending_event, commit_pending_events, sqlx,
}
use btc_idx_service.Ledger.Totals.{event_total, pending_total}
use btc_idx_service.Processor.Balances.{event_sum}
use btc_idx_service.Chain.Totals.{unspent_total}
use btc_idx_service.Chain.{
  upsert_block, upsert_transaction, get_relevant_utxos, spend_utxo, create_utxo,
}
use btc_idx_service.Ledger.{create_pending_p2tr_event}
use btc_idx_service.Sql.{io}
use btc_idx_service.Prelude.Run.{err}

abbrev pub service : Service
service = record { world = world; aggregator = aggregator }

abbrev committed : World
committed = (process externals block world).1

abbrev first_message : AggregatorMsg
first_message = event (new_event 5 8 5 (pos 60) receive true)

abbrev later_messages : List AggregatorMsg
later_messages =
    event (new_event 5 9 3 (negsuc 24) send false)
    ∷ event (new_event 5 9 4 (pos 20) receive false)
    ∷ []

abbrev handled : Service
handled = record {
  world = record committed { sent = later_messages };
  aggregator = (handle_message in_order first_message aggregator).1;
}

-- A block is committed, and the first of its messages handled.
service-Reach : Reach externals in_order service handled
unfolding process process_block index_transactions process_transactions spend_inputs create_outputs
    send_events set_balance action_of upsert_block upsert_transaction get_relevant_utxos spend_utxo
    create_utxo handle_message handle_event insert_pending_event create_pending_p2tr_event
    commit_pending_events ◌+ℤ◌ ◌-ℤ◌
service-Reach =
    next (next here (commits block committed refl))
      (handles first_message later_messages _ refl refl)

pub service-IsBooked : IsBooked 3 service
unfolding worth event_total event_sum unspent_total pending_total ◌+ℤ◌
service-IsBooked = record { events = tt; agrees = refl }

Reach-IsBooked_example : IsBooked 3 handled
Reach-IsBooked_example =
    Reach-IsBooked externals externals-IsWalk in_order in_order-IsArrangement 3 service handled
      service-Reach service-IsBooked

-- The connection fails at the commit, when all messages have been sent.
abbrev eight : List Bool
eight = false ∷ false ∷ false ∷ false ∷ false ∷ false ∷ false ∷ false ∷ true ∷ []

abbrev failing : Service
failing = record service { world = record world { faults = false ∷ eight } }

-- What the block has written when the commit is lost.
abbrev written : World
written = (process_block externals block (record world { faults = eight })).1

failed_block_is_counted_example :
    (w : World) × (process externals block failing.world ≡ (err (sqlx io), w))
    × (w.chain ≡ chain)
    × (worth 3 aggregator.ledger +ℤ event_sum 3 w.sent ≡ unspent_total 3 written.chain.utxos)
unfolding process_block index_transactions process_transactions spend_inputs create_outputs
    send_events set_balance action_of upsert_block upsert_transaction get_relevant_utxos spend_utxo
    create_utxo worth event_total event_sum unspent_total pending_total ◌+ℤ◌ ◌-ℤ◌
failed_block_is_counted_example =
    failed_block_is_counted externals externals-IsWalk in_order in_order-IsArrangement 3 block
      failing written eight [] refl refl refl refl
