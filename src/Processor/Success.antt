-- ===== src/Processor/Success.antt =====
-- Without faults, each statement of a block on sound tables succeeds.
use btc_idx_service.Prelude.{
  [], true, false, inl, inr, ◌∷◌, ◌≡◌, ◌<◌, ◌^◌, refl, List, ℕ, Bool-cases, exists, subst, sym,
  lt→ltb, ==_iff, arith, All,
}
use btc_idx_service.Prelude.Run.{ok, err, panic, Returns, Outcome, resume, pure, ◌>>◌}
use btc_idx_service.Chain.{
  upsert_block, spend_utxo, upsert_transaction, Chain, create_utxo, UtxoRow, TransactionRow,
  BlockRow, at_out_point, new_utxo, spend, get_relevant_utxos,
}
use btc_idx_service.Sql.{Statement, update, SqlError, count}
use btc_idx_service.Types.{UtxoInfo, Address, Txid, OutPoint}
use btc_idx_service.Processor.State.{
  World, exec, settle, M, in_transaction, ProcessorError, conclude,
}
use btc_idx_service.Chain.Keys.{
  IsConsistent, Distinct, knows, has_transaction, same_output, same_hash,
}
use btc_idx_service.Chain.Totals.{HasUnspent, at_info, HasUnspent-count, All-relevant}
use btc_idx_service.Prelude.Int.{ℤ}
use btc_idx_service.Chain.Rows.{count-none}

-- No fault is to come, and the aggregator listens.
pub record IsQuiet (w : World) : Type 0 where
  pub sound : w.faults ≡ []
  pub open_end : w.receiving ≡ true

with_no_faults : (w : World) → w.faults ≡ [] → w ≡ record w { faults = [] }
with_no_faults w e i = record w { faults = e i }

exec_quiet :
    {A : Type 0} (q : Statement Chain A) (w : World)
    → w.faults ≡ []
    → exec q w ≡ settle (q w.chain) w
exec_quiet q w f = subst (λ v. exec q v ≡ settle (q v.chain) v) (sym (with_no_faults w f)) refl

pub exec-Returns :
    {A : Type 0} (R : A → Chain → Type 0) (Q : A → World → Type 0) (q : Statement Chain A)
    (w : World)
    → IsQuiet w
    → Returns R (q w.chain)
    → ((a : A) (c : Chain)
        → R a c
        → IsQuiet (record w { chain = c })
        → Q a (record w { chain = c }))
    → Returns Q (exec q w)
exec-Returns {A = A} R Q q w quiet h k = rw (exec_quiet q w quiet.sound) (settled (q w.chain) h)
  where
    settled : (r : Outcome SqlError A × Chain) → Returns R r → Returns Q (settle r w)
    settled (ok a, c) h = k a c h (record { sound = quiet.sound; open_end = quiet.open_end })
    settled (err e, c) h = absurd h
    settled (panic, c) h = absurd h

-- Keys make an unspent row the only one at its out point.
unique_unspent :
    (u : UtxoInfo) (us : List UtxoRow)
    → Distinct same_output us
    → HasUnspent u us
    → count (at_info u) us ≡ 1
unique_unspent u [] keys held = absurd held
unique_unspent u (r ∷ us) keys (inl here) =
    ground (arith, count-none (at_out_point r.txid r.vout) us keys.0)
unique_unspent u (r ∷ us) keys (inr there) = ground (
  arith,
  unique_unspent u us keys.1 there,
  HasUnspent-count u us there,
  count-none (at_out_point r.txid r.vout) us keys.0,
)

pub spend_utxo-Returns :
    (u : UtxoInfo) (n : ℕ) (c : Chain)
    → IsConsistent c
    → HasUnspent u c.utxos
    → Returns
        (λ _ c'. c' ≡ record c { utxos = update (at_info u) (spend n) c.utxos })
        (spend_utxo u.txid u.vout n c)
unfolding spend_utxo
spend_utxo-Returns u n c keys held =
    rw ((==_iff _ _).1 (unique_unspent u c.utxos keys.outputs held)) refl

pub create_utxo-Returns :
    (owner : Address) (txid : Txid) (vout : ℕ) (amount : ℤ) (n : ℕ) (c : Chain)
    → n < 2 ^ 63
    → exists (at_out_point txid vout) c.utxos ≡ false
    → has_transaction c txid ≡ true
    → Returns
        (λ _ c'. c' ≡ record c { utxos = new_utxo owner txid vout amount n ∷ c.utxos })
        (create_utxo owner txid vout amount n c)
unfolding create_utxo
create_utxo-Returns owner txid vout amount n c fits free row =
    rw (lt→ltb n (2 ^ 63) fits, free, row) refl

pub upsert_transaction-Returns :
    (row : TransactionRow) (c : Chain)
    → knows c row.block_hash ≡ true
    → Returns (λ _ c'. c'.blocks ≡ c.blocks) (upsert_transaction row c)
unfolding upsert_transaction
upsert_transaction-Returns row c known = elim (Bool-cases (has_transaction c row.txid)) [
  | inl e ↦ rw (known, e) refl
  | inr e ↦ rw (known, e) refl
]

pub upsert_block-Returns :
    (row : BlockRow) (c : Chain)
    → row.number < 2 ^ 63
    → Returns (λ _ _. Unit {0}) (upsert_block row c)
unfolding upsert_block
upsert_block-Returns row c fits = elim (Bool-cases (exists (same_hash row) c.blocks)) [
  | inl e ↦ rw (lt→ltb row.number (2 ^ 63) fits, e) tt
  | inr e ↦ rw (lt→ltb row.number (2 ^ 63) fits, e) tt
]

pub get_relevant_utxos-Returns :
    (points : List OutPoint) (c : Chain)
    → Returns (λ us c'. (c' ≡ c) × All (λ u. HasUnspent u c.utxos) us) (get_relevant_utxos points c)
unfolding get_relevant_utxos
get_relevant_utxos-Returns points c = (refl, All-relevant points c.utxos)

-- A transaction whose body returns without faults commits.
pub in_transaction-Returns :
    {A : Type 0} (body : M A) (w : World)
    → IsQuiet w
    → Returns (λ _ w'. IsQuiet w') (body w)
    → Returns (λ _ w'. IsQuiet w') (in_transaction body w)
in_transaction-Returns {A = A} body w q h = rw (exec_quiet (pure tt) w q.sound) (done (body w) h)
  where
    done :
        (r : Outcome ProcessorError A × World)
        → Returns (λ _ w'. IsQuiet w') r
        → Returns (λ _ w'. IsQuiet w') (conclude w.chain (resume r (λ a. exec (pure tt) >> pure a)))
    done (ok a, w') k = rw (exec_quiet (pure tt) w' k.sound) k
    done (err e, w') k = absurd k
    done (panic, w') k = absurd k
