-- ===== src/Chain/Undo.antt =====
-- A rollback to before a block takes away what the block had added to the tables.
use btc_idx_service.Chain.Totals.{HasUnspent, at_info, HasUnspent-count}
use btc_idx_service.Prelude.{
  none, [], true, false, inl, inr, ◌∷◌, ◌≡◌, ◌==◌, refl, List, Bool, ℕ, All, exists, ap, sym, arith,
  ◌<◌, ◌++◌, ◌&&◌, ◌∙◌, ◌^◌, leb, lt→ltb, All-mono, le→leb, ==_iff, Bool-cases,
}
use btc_idx_service.Chain.Tables.{TransactionRow, UtxoRow, Chain, BlockRow}
use btc_idx_service.Chain.Queries.{
  unspend, spend, spent_since, delete_blocks_since, unspend_utxos_spent_since_block,
}
use btc_idx_service.Sql.{update, count, delete, as_i64}
use btc_idx_service.Types.{UtxoInfo, BlockHash}
use btc_idx_service.Chain.Rows.{update-none, exists-none, delete-append, delete_ext, exists-append}
use btc_idx_service.Prelude.Int.{pos, leb_ℤ}
use btc_idx_service.Chain.Keys.{knows, IsConsistent}
use btc_idx_service.Prelude.Run.{ok, ◌>>=◌}

-- The utxo is an output of one of the transactions.
abbrev pub made_by : List TransactionRow → UtxoRow → Bool
made_by ts u = exists (λ t. t.txid == u.txid) ts

-- The utxos without those that `ts` made, and with those unspent that block `n` or a later one spent.
abbrev pub restored : ℕ → List TransactionRow → List UtxoRow → List UtxoRow
restored n ts us = update (spent_since n) unspend (delete (made_by ts) us)

pub restored-create :
    (n : ℕ) (ts : List TransactionRow) (u : UtxoRow) (us : List UtxoRow)
    → made_by ts u ≡ true
    → restored n ts (u ∷ us) ≡ restored n ts us
restored-create n ts u us h = rw (h) refl

-- An unspent row is what spending and unspending make of it.
unspend-spend : (n : ℕ) (r : UtxoRow) → r.spent_block ≡ none → unspend (spend n r) ≡ r
unspend-spend n r e i = record r { spent_block = sym e i }

pub restored-spend :
    (n : ℕ) (ts : List TransactionRow) (u : UtxoInfo) (us : List UtxoRow)
    → count (at_info u) us ≡ 1
    → HasUnspent u us
    → restored n ts (update (at_info u) (spend n) us) ≡ restored n ts us
restored-spend n ts u [] one held = absurd held
restored-spend n ts u (r ∷ us) one (inl here) =
    ground (arith, update-none (at_info u) (spend n) us, unspend-spend n r here.1)
restored-spend n ts u (r ∷ us) one (inr there) =
    ground (arith, restored-spend n ts u us, HasUnspent-count u us there)

pub restored-none :
    (n : ℕ) (ts : List TransactionRow) (us : List UtxoRow)
    → All (λ u. (made_by ts u ≡ false) × (spent_since n u ≡ false)) us
    → restored n ts us ≡ us
restored-none n ts [] h = refl
restored-none n ts (u ∷ us) h = rw (h.0.0, h.0.1) (ap (λ l. u ∷ l) (restored-none n ts us h.1))

-- The tables come before block `n`: no block and no spending is of `n` or later.
pub record IsBefore (n : ℕ) (c : Chain) : Type 0 where
  pub blocks : All (λ (b : BlockRow). leb n b.number ≡ false) c.blocks
  pub spent : All (λ u. spent_since n u ≡ false) c.utxos

-- `c` is `c₀` with one block more, with the transactions `new`, and what they created and spent.
pub record Extends (row : BlockRow) (new : List TransactionRow) (c₀ c : Chain) : Type 0 where
  pub blocks : c.blocks ≡ row ∷ c₀.blocks
  pub transactions : c.transactions ≡ new ++ c₀.transactions
  pub linked : All (λ (t : TransactionRow). t.block_hash ≡ row.hash) new
  pub utxos : restored row.number new c.utxos ≡ c₀.utxos

gone_lem : (n m : ℕ) → n < 2 ^ 63 → leb_ℤ (as_i64 n) (pos m) ≡ leb n m
gone_lem n m fits = rw (lt→ltb n (2 ^ 63) fits) (ground arith)

differ : (c : Chain) (h h' : BlockHash) → knows c h ≡ false → knows c h' ≡ true → (h == h') ≡ false
differ c h h' unknown known = elim (Bool-cases (h == h')) [
  | inr e ↦ e
  | inl e ↦ absurd (ground (arith, (==_iff h h').0 e))
]

module _ (row : BlockRow) (new : List TransactionRow) (c₀ : Chain) (fits : row.number < 2 ^ 63)
    (before : IsBefore row.number c₀) (fresh : knows c₀ row.hash ≡ false)
    (keys : IsConsistent c₀) where
  gone : BlockRow → Bool
  gone b = leb_ℤ (as_i64 row.number) (pos b.number)

  gone-row : gone row ≡ true
  unfolding gone
  gone-row = gone_lem row.number row.number fits ∙ le→leb row.number row.number (omega arith)

  gone-none : All (λ b. gone b ≡ false) c₀.blocks
  unfolding gone
  gone-none =
      All-mono (λ (b : BlockRow). leb row.number b.number ≡ false) (λ b. gone b ≡ false) c₀.blocks
        (λ b e. gone_lem row.number b.number fits ∙ e) before.blocks

  lost : TransactionRow → Bool
  lost t = exists (λ b. gone b && b.hash == t.block_hash) (row ∷ c₀.blocks)

  lost_lem : (t : TransactionRow) → lost t ≡ (row.hash == t.block_hash)
  unfolding lost
  lost_lem t = rw (gone-row) (
      rw
        (exists-none (λ b. gone b && b.hash == t.block_hash) c₀.blocks
          (All-mono (λ b. gone b ≡ false) (λ b. (gone b && b.hash == t.block_hash) ≡ false)
            c₀.blocks (λ b e. rw e refl) gone-none))
        (ground arith))

  lost-old : All (λ t. lost t ≡ false) c₀.transactions
  lost-old =
      All-mono (λ t. knows c₀ t.block_hash ≡ true) (λ t. lost t ≡ false) c₀.transactions
        (λ t k. lost_lem t ∙ differ c₀ row.hash t.block_hash fresh k) keys.in_block

  lost-new :
      (ts : List TransactionRow)
      → All (λ (t : TransactionRow). t.block_hash ≡ row.hash) ts
      → All (λ t. lost t ≡ true) ts
  lost-new ts linked =
      All-mono (λ (t : TransactionRow). t.block_hash ≡ row.hash) (λ t. lost t ≡ true) ts
        (λ t e. lost_lem t ∙ (==_iff row.hash t.block_hash).1 (sym e)) linked

  -- A rollback to before the block restores the tables.
  pub delete_blocks_since-Extends :
      (c : Chain)
      → Extends row new c₀ c
      → (delete_blocks_since row.number >>= λ _. unspend_utxos_spent_since_block row.number) c
        ≡ (ok tt, c₀)
  unfolding delete_blocks_since unspend_utxos_spent_since_block lost gone
  delete_blocks_since-Extends c e =
      rw (e.blocks, e.transactions)
        (λ i. (ok tt, record { blocks = b i; transactions = t i; utxos = u i }))
    where
      b : delete gone (row ∷ c₀.blocks) ≡ c₀.blocks
      b = delete-append gone (row ∷ []) c₀.blocks (gone-row, tt) gone-none

      t : delete lost (new ++ c₀.transactions) ≡ c₀.transactions
      t = delete-append lost new c₀.transactions (lost-new new e.linked) lost-old

      u :
          update (spent_since row.number) unspend (
            delete (λ o. exists (λ t. lost t && t.txid == o.txid) (new ++ c₀.transactions)) c.utxos)
          ≡ c₀.utxos
      u =
          ap (update (spent_since row.number) unspend) (
            delete_ext (λ o. exists (λ t. lost t && t.txid == o.txid) (new ++ c₀.transactions))
              (made_by new) c.utxos
              (λ o.
                exists-append lost (λ t. t.txid == o.txid) new c₀.transactions
                  (lost-new new e.linked) lost-old))
          ∙ e.utxos
