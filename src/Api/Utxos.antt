-- ===== src/Api/Utxos.antt =====
-- What the web API shows of an address and of a transaction.
use btc_idx_service.Prelude.{
  none, some, [], inl, inr, ◌∷◌, ◌≡◌, ◌==◌, ◌&&◌, ◌⊎◌, ◌∙◌, refl, List, Option, ℕ, find, unwrap_or,
  map, sym, select, ap, Bool-cases,
}
use btc_idx_service.Prelude.Run.{ok, err, Outcome, Returns, Returns-mono}
use btc_idx_service.Prelude.Int.{pos, ℤ, ◌+ℤ◌, int_laws}
use btc_idx_service.Types.{Address}
use btc_idx_service.Chain.Totals.{unspent_total}
use btc_idx_service.Api.Reads.{Utxo, p2tr_balance, p2tr_utxo, utxo_of, Database, or_error}
use btc_idx_service.Ledger.{BalanceRow, get_btc_balance}
use btc_idx_service.System.Interleaving.{Service, IsBooked}
use btc_idx_service.Chain.{UtxoRow, get_unspent_utxos_by_owner, utxo_info, is_unspent}
use btc_idx_service.Ledger.Totals.{pending_total, any_block, event_total}
use btc_idx_service.Api.Defs.{missing, ApiError}
use btc_idx_service.Aggregator.Balanced.{IsBalanced}
use btc_idx_service.Api.Snapshots.{get_btc_balance_lem}
use btc_idx_service.Aggregator.Worth.{worth}
use btc_idx_service.Processor.Balances.{event_sum}

unfoldable pub satoshis : List Utxo → ℤ
satoshis [] = pos 0
satoshis (u ∷ us) = u.satoshi +ℤ satoshis us

zero_left : (v : ℤ) → v ≡ pos 0 +ℤ v
zero_left v = omega int_laws

satoshis-unspent :
    (a : Address) (rs : List UtxoRow)
    → satoshis (map utxo_of (map utxo_info (select (λ u. u.address == a && is_unspent u) rs)))
      ≡ unspent_total a rs
unfolding satoshis unspent_total
satoshis-unspent a [] = refl
satoshis-unspent a (r ∷ rs) = elim (Bool-cases (r.address == a && is_unspent r)) [
  | inl e ↦ rw e (ap (λ v. r.amount +ℤ v) (satoshis-unspent a rs))
  | inr e ↦ rw e (satoshis-unspent a rs ∙ zero_left (unspent_total a rs))
]

-- The row that the query for a balance finds, and what the handler makes of it.
abbrev balance_row : Address → List BalanceRow → Option ℤ
balance_row a rs = elim (find (λ r. r.address == a) rs) as (λ _. Option ℤ) [
  | none ↦ none
  | some r ↦ some r.balance
]

abbrev shown : Option ℤ → Outcome ApiError ℤ
shown none = err missing
shown (some v) = ok v

as_shown :
    (o : Option ℤ) (v : ℤ)
    → unwrap_or o (pos 0) ≡ v
    → (shown o ≡ ok v) ⊎ ((shown o ≡ err missing) × (v ≡ pos 0))
as_shown none v e = inr (refl, sym e)
as_shown (some w) v e = inl (ap ok e)

all_recorded : (e p u v : ℤ) → p ≡ pos 0 → e +ℤ p +ℤ pos 0 ≡ u → v ≡ u → e ≡ v
all_recorded e p u v h k f = grind int_laws

-- What the web API reads of a service.
abbrev pub tables : Service → Database
tables s = record { chain = s.world.chain; ledger = s.aggregator.ledger }

module _ (parse : ℕ → Option Address) where
  pub p2tr_utxo-Returns :
      (text : ℕ) (a : Address) (d : Database)
      → parse text ≡ some a
      → Returns
          (λ us d'. (satoshis us ≡ unspent_total a d.chain.utxos) × (d' ≡ d))
          (p2tr_utxo parse text d)
  unfolding p2tr_utxo get_unspent_utxos_by_owner
  p2tr_utxo-Returns text a d parses =
      rw (p2tr_utxo, parses) (satoshis-unspent a d.chain.utxos, refl)

  p2tr_balance_lem :
      (text : ℕ) (a : Address) (d : Database)
      → parse text ≡ some a
      → (p2tr_balance parse text d).0 ≡ shown (balance_row a d.ledger.balances)
  unfolding p2tr_balance get_btc_balance
  p2tr_balance_lem text a d parses =
      rw (p2tr_balance, parses) (go (balance_row a d.ledger.balances))
    where
      go : (o : Option ℤ) → (or_error o missing d).0 ≡ shown o
      go none = refl
      go (some v) = refl

  -- Once the channel is empty and no coinbase waits for the address, the balance that the API shows
  -- of an address is the sum of the satoshis of the unspent outputs that it shows, if the ledger and
  -- the channel account for the unspent total. Without a balance row it answers that there is none,
  -- and then that sum is zero.
  pub p2tr_balance-eq-utxos :
      (text : ℕ) (a : Address) (s : Service)
      → parse text ≡ some a
      → IsBooked a s
      → s.world.sent ≡ []
      → pending_total any_block a s.aggregator.ledger.pending ≡ pos 0
      → IsBalanced s.aggregator.ledger
      → Returns
          (λ us _.
            ((p2tr_balance parse text (tables s)).0 ≡ ok (satoshis us))
            ⊎ (((p2tr_balance parse text (tables s)).0 ≡ err missing) × (satoshis us ≡ pos 0)))
          (p2tr_utxo parse text (tables s))
  unfolding worth event_sum
  p2tr_balance-eq-utxos text a s parses booked empty none_waits balanced =
      Returns-mono (λ us d'. (satoshis us ≡ unspent_total a s.world.chain.utxos) × (d' ≡ tables s))
        _ _ (p2tr_utxo-Returns text a (tables s) parses)
        (λ us _ (sum, _). rw (p2tr_balance_lem text a (tables s) parses) (
          as_shown (balance_row a s.aggregator.ledger.balances) (satoshis us)
            (get_btc_balance_lem a s.aggregator.ledger.balances ∙ balanced.total a ∙ total us sum)))
    where
      total :
          (us : List Utxo)
          → satoshis us ≡ unspent_total a s.world.chain.utxos
          → event_total any_block a s.aggregator.ledger.events ≡ satoshis us
      total us sum = all_recorded _ _ _ (satoshis us) none_waits (rw empty at (booked.agrees)) sum
