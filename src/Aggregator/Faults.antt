-- ===== src/Aggregator/Faults.antt =====
-- The connection to the database: what a lost one costs, and that without faults an event is handled.
use btc_idx_service.Prelude.{
  some, [], true, false, ◌∷◌, ◌≡◌, ◌-◌, ◌≤◌, refl, List, Bool, All, select, subst, sym, arith,
}
use btc_idx_service.Prelude.Run.{err, Returns, Outcome}
use btc_idx_service.Types.{send, receive, reorg, action_try_from, P2trEvent, Action, to_i16}
use btc_idx_service.Aggregator.Defs.{
  record_event, commit_pending_events, insert_event, update_total_balance,
  update_statistic_balance_change,
}
use btc_idx_service.Aggregator.State.{Aggregator, sqlx, AggregatorError}
use btc_idx_service.Ledger.{
  PendingRow, pull_pending_p2tr_events, decode_all, create_p2tr_event, decode_pending,
  increment_btc_balance, due, increment_static_balances,
}
use btc_idx_service.Sql.{io, delete}

-- The action of a pending row is one that the program writes.
abbrev pub IsReadable : PendingRow → Type 0
IsReadable r = (k : Action) × (action_try_from r.action ≡ some k)

-- No fault is to come, and the pending rows are readable.
pub record IsQuiet (g : Aggregator) : Type 0 where
  pub sound : g.faults ≡ []
  pub readable : All IsReadable g.ledger.pending

pub action_try_from-to_i16 : (k : Action) → action_try_from (to_i16 k) ≡ some k
unfolding action_try_from to_i16
action_try_from-to_i16 send = refl
action_try_from-to_i16 receive = refl
action_try_from-to_i16 reorg = refl

pub with_faults : (g : Aggregator) (fs : List Bool) → g.faults ≡ fs → g ≡ record g { faults = fs }
with_faults g fs e = λ i. record g { faults = e i }

pub record_event-IsQuiet :
    (e : P2trEvent) (g : Aggregator) → IsQuiet g → Returns (λ _ g'. IsQuiet g') (record_event e g)
unfolding record_event insert_event update_total_balance update_statistic_balance_change
    create_p2tr_event increment_btc_balance increment_static_balances
record_event-IsQuiet e g q =
    subst (λ v. Returns (λ _ g'. IsQuiet g') (record_event e v)) (sym (with_faults g [] q.sound))
      (record { sound = refl; readable = q.readable })

module _ (arrange : List P2trEvent → List P2trEvent) where
  -- If the connection fails when the transaction begins that should record the events that were
  -- pulled, these events are gone: they are in no table.
  pub commit_pending_events_loses :
      (g : Aggregator) (e : P2trEvent) (es : List P2trEvent) (fs : List Bool)
      → 100 ≤ g.last_block_number
      → g.faults ≡ false ∷ true ∷ fs
      → decode_all decode_pending (select (due (g.last_block_number - 100)) g.ledger.pending)
        ≡ some (e ∷ es)
      → commit_pending_events arrange g ≡ (
        err (sqlx io),
        record g {
          ledger = record g.ledger {
            pending = delete (due (g.last_block_number - 100)) g.ledger.pending;
          };
          faults = fs;
        },
      )
  unfolding commit_pending_events pull_pending_p2tr_events
  commit_pending_events_loses g e es fs late f d =
      subst (λ v. commit_pending_events arrange v ≡ lost) (sym (with_faults g _ f)) (ground arith)
    where
      lost : Outcome AggregatorError (Unit {0}) × Aggregator
      lost = (
        err (sqlx io),
        record g {
          ledger = record g.ledger {
            pending = delete (due (g.last_block_number - 100)) g.ledger.pending;
          };
          faults = fs;
        },
      )
