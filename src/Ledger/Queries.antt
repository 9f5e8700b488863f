-- ===== src/Ledger/Queries.antt =====
-- core/src/sqlx_postgres/bitcoin.rs: one function for each query on the ledger tables.
use btc_idx_service.Prelude.{
  none, some, [], false, suc, ◌∷◌, ◌==◌, ◌&&◌, List, Bool, Option, ℕ, if◌then◌else◌, select, leb,
  find,
}
use btc_idx_service.Prelude.Run.{ok, raise, pure}
use btc_idx_service.Ledger.Tables.{EventRow, PendingRow, Ledger}
use btc_idx_service.Sql.{Statement, delete, decode}
use btc_idx_service.Types.{Address, P2trEvent, to_i16, action_try_from}
use btc_idx_service.Prelude.Int.{ℤ, ◌+ℤ◌}

abbrev Query : Type 0 → Type 0
Query A = Statement Ledger A

-- `TryFrom<PgRow> for BtcP2trEvent`, on the columns of btc_p2tr_events with `false` for
-- `is_coinbase`, and on those of pending_btc_p2tr_events, which have no `sequence_id`.
abbrev pub decode_event : EventRow → Option P2trEvent
decode_event r = elim (action_try_from r.action) [
  | none ↦ none
  | some action ↦ some (record {
    sequence_id = r.sequence_id;
    block_number = r.block_number;
    txid = r.tx_hash;
    address = r.address;
    amount = r.amount;
    action = action;
    is_coinbase = false;
  })
]

abbrev pub decode_pending : PendingRow → Option P2trEvent
decode_pending r = elim (action_try_from r.action) [
  | none ↦ none
  | some action ↦ some (record {
    sequence_id = 0;
    block_number = r.block_number;
    txid = r.tx_hash;
    address = r.address;
    amount = r.amount;
    action = action;
    is_coinbase = r.is_coinbase;
  })
]

-- `try_map(…).fetch_all(…)`: one row that does not decode fails the call.
abbrev pub decode_all : {R : Type 0} → (R → Option P2trEvent) → List R → Option (List P2trEvent)
decode_all d [] = some []
decode_all d (r ∷ rs) = elim (d r) [
  | none ↦ none
  | some e ↦ elim (decode_all d rs) [ none ↦ none | some es ↦ some (e ∷ es) ]
]

abbrev pub fetched : Option (List P2trEvent) → Query (List P2trEvent)
fetched none = raise decode
fetched (some es) = pure es

unfoldable pub create_pending_p2tr_event : P2trEvent → Query (Unit {0})
create_pending_p2tr_event e l = (
  ok tt,
  record l {
    pending =
        record {
          block_number = e.block_number;
          tx_hash = e.txid;
          address = e.address;
          amount = e.amount;
          action = to_i16 e.action;
          is_coinbase = e.is_coinbase;
        }
        ∷ l.pending;
  },
)

abbrev pub due : ℕ → PendingRow → Bool
due block_num r = leb r.block_number block_num

-- `DELETE … RETURNING`.
unfoldable pub pull_pending_p2tr_events : ℕ → Query (List P2trEvent)
pull_pending_p2tr_events block_num l =
    fetched (decode_all decode_pending (select (due block_num) l.pending))
      (record l { pending = delete (due block_num) l.pending })

abbrev pub event_row : ℕ → P2trEvent → EventRow
event_row sequence_id e = record {
  sequence_id = sequence_id;
  block_number = e.block_number;
  tx_hash = e.txid;
  address = e.address;
  amount = e.amount;
  action = to_i16 e.action;
}

unfoldable pub create_p2tr_event : P2trEvent → Query ℕ
create_p2tr_event e l = (
  ok l.next_sequence,
  record l { events = event_row l.next_sequence e ∷ l.events; next_sequence = suc l.next_sequence },
)

abbrev pub since : ℕ → EventRow → Bool
since block_num r = leb block_num r.block_number

unfoldable pub get_p2tr_events_since_block : ℕ → Query (List P2trEvent)
get_p2tr_events_since_block block_num l =
    fetched (decode_all decode_event (select (since block_num) l.events)) l

-- `INSERT … ON CONFLICT … DO UPDATE`: the key leaves at most one row in conflict.
abbrev pub upsert : {R : Type 0} → (R → Bool) → R → (R → R) → List R → List R
upsert conflict row change [] = row ∷ []
upsert conflict row change (r ∷ rs) =
    if conflict r then change r ∷ rs else r ∷ upsert conflict row change rs

unfoldable pub get_btc_balance : Address → Query (Option ℤ)
get_btc_balance address l = (
  ok (elim (find (λ r. r.address == address) l.balances) [ none ↦ none | some r ↦ some r.balance ]),
  l,
)

unfoldable pub increment_btc_balance : Address → ℤ → ℕ → Query (Unit {0})
increment_btc_balance address value timestamp l = (
  ok tt,
  record l {
    balances =
        upsert (λ r. r.address == address)
          (record { address = address; balance = value; last_updated = timestamp })
          (λ r. record r { balance = r.balance +ℤ value; last_updated = timestamp }) l.balances;
  },
)

unfoldable pub increment_static_balances : Address → ℤ → ℕ → ℕ → Query (Unit {0})
increment_static_balances address value current_hour timestamp l = (
  ok tt,
  record l {
    statistics =
        upsert (λ r. r.address == address && r.datetime_hour == current_hour)
          (record {
            address = address;
            balance = value;
            datetime_hour = current_hour;
            last_updated = timestamp;
          })
          (λ r. record r { balance = r.balance +ℤ value; last_updated = timestamp }) l.statistics;
  },
)
