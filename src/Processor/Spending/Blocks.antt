-- ===== src/Processor/Spending/Blocks.antt =====
-- A whole block on the tables, against the block on the set of unspent outputs.
use btc_idx_service.Processor.Spending.{
  apply_transactions, inputs_of, IsAsked, IsOutside, OutPoint, Transaction, TxIn, Externals,
  out_points,
}
use btc_idx_service.Processor.Spending.Tracked.{IsTracked}
use btc_idx_service.Prelude.{
  [], ◌∷◌, ◌≡◌, ◌+◌, ◌++◌, ◌∙◌, refl, arith, List, ℕ, All, All-mono, sym, append-nil, map,
  append_assoc, select, false, inl, inr, ◌==◌, Option-cases,
}
use btc_idx_service.Types.{OutPoint, TxIn, Transaction, BlockInfo, BlockHash}
use btc_idx_service.Chain.{
  upsert_transaction, get_relevant_utxos, utxo_info, is_relevant, upsert_block,
}
use btc_idx_service.Processor.State.{Externals, World, exec, in_transaction}
use btc_idx_service.Chain.Rows.{true≢false}
use btc_idx_service.Processor.Defs.{out_points, index_transactions, collect, process_block, process}
use btc_idx_service.Chain.Unspent.{unspent_at, IsSpelled, unspent_at-irrelevant}
use btc_idx_service.Prelude.Run.{Holds, Holds-resume, Holds-mono}
use btc_idx_service.Processor.Rules.{Holds-exec, Commits-Holds, Commits-in_transaction}
use btc_idx_service.Processor.Spending.Inputs.{collect-IsKeyed, get_utxo-collect}
use btc_idx_service.Processor.Conservation.{upsert_transaction_lem, upsert_block_lem}
use btc_idx_service.Processor.Spending.Refined.{process_transactions-IsTracked}

-- The utxo table is as it was, and the inputs of the transactions have been collected.
abbrev Collects : List OutPoint → World → List OutPoint → World → Type 0
Collects expected w points w' = (points ≡ expected) × (w'.chain.utxos ≡ w.chain.utxos)

IsAsked-here : (p : OutPoint) (ps : List OutPoint) → IsAsked (p ∷ ps) p
IsAsked-here p ps = ground arith

IsAsked-left : (ps qs : List OutPoint) (p : OutPoint) → IsAsked ps p → IsAsked (ps ++ qs) p
IsAsked-left [] qs p h = absurd (true≢false (sym h))
IsAsked-left (q ∷ ps) qs p h = ground (arith, IsAsked-left ps qs p)

IsAsked-right : (ps qs : List OutPoint) (p : OutPoint) → IsAsked qs p → IsAsked (ps ++ qs) p
IsAsked-right [] qs p h = h
IsAsked-right (q ∷ ps) qs p h = ground (arith, IsAsked-right ps qs p h)

inputs-IsAsked :
    (ins : List TxIn) → All (λ (i : TxIn). IsAsked (out_points ins) i.previous_output) ins
inputs-IsAsked [] = tt
inputs-IsAsked (i ∷ is) = (
  IsAsked-here i.previous_output (out_points is),
  All-mono (λ (j : TxIn). IsAsked (out_points is) j.previous_output)
      (λ (j : TxIn). IsAsked (out_points (i ∷ is)) j.previous_output) is
      (λ j h. IsAsked-right (i.previous_output ∷ []) (out_points is) j.previous_output h)
      (inputs-IsAsked is),
)

-- Every input of a transaction is among the inputs of the block.
all-IsAsked :
    (txs : List Transaction)
    → All
        (λ (tx : Transaction).
          All (λ (i : TxIn). IsAsked (inputs_of txs) i.previous_output) tx.input)
        txs
all-IsAsked [] = tt
all-IsAsked (tx ∷ txs) = (
  All-mono (λ (i : TxIn). IsAsked (out_points tx.input) i.previous_output)
      (λ (i : TxIn). IsAsked (inputs_of (tx ∷ txs)) i.previous_output) tx.input
      (λ i h. IsAsked-left (out_points tx.input) (inputs_of txs) i.previous_output h)
      (inputs-IsAsked tx.input),
  All-mono
      (λ (t : Transaction). All (λ (i : TxIn). IsAsked (inputs_of txs) i.previous_output) t.input)
      (λ (t : Transaction).
        All (λ (i : TxIn). IsAsked (inputs_of (tx ∷ txs)) i.previous_output) t.input)
      txs
      (λ t h.
        All-mono (λ (i : TxIn). IsAsked (inputs_of txs) i.previous_output)
          (λ (i : TxIn). IsAsked (inputs_of (tx ∷ txs)) i.previous_output) t.input
          (λ i k. IsAsked-right (out_points tx.input) (inputs_of txs) i.previous_output k) h)
      (all-IsAsked txs),
)

-- From all out points and then all transactions to all transactions and then all out points.
All-swap :
    {A B : Type 0} (P : A → B → Type 0) (xs : List A) (ys : List B)
    → All (λ x. All (λ y. P x y) ys) xs
    → All (λ y. All (λ x. P x y) xs) ys
All-swap P xs [] h = tt
All-swap P xs (y ∷ ys) h = (
  All-mono (λ x. All (P x) (y ∷ ys)) (λ x. P x y) xs (λ x k. k.0) h,
  All-swap P xs ys (All-mono (λ x. All (P x) (y ∷ ys)) (λ x. All (P x) ys) xs (λ x k. k.1) h),
)

module _ (x : Externals) where
  index_transactions-Collects :
      (hash : BlockHash) (idx : ℕ) (txs : List Transaction) (points : List OutPoint) (w : World)
      → Holds (Collects (points ++ inputs_of txs) w) (index_transactions x hash idx txs points w)
  unfolding index_transactions
  index_transactions-Collects hash idx [] points w = (sym (append-nil points), refl)
  index_transactions-Collects hash idx (tx ∷ rest) points w =
      Holds-resume (λ _ w'. w'.chain.utxos ≡ w.chain.utxos) _ (exec (upsert_transaction _) w) _
        (Holds-exec _ _ (upsert_transaction _) w (upsert_transaction_lem _ w.chain) (λ _ w' h _. h))
        (λ _ w₁ same.
          Holds-mono (Collects ((points ++ out_points tx.input) ++ inputs_of rest) w₁)
            (Collects (points ++ inputs_of (tx ∷ rest)) w) _
            (index_transactions-Collects hash (idx + 1) rest (points ++ out_points tx.input) w₁)
            (λ _ w₂ h.
              (h.0 ∙ append_assoc points (out_points tx.input) (inputs_of rest), h.1 ∙ same)))

  relevant-IsTracked :
      (points : List OutPoint) (w : World)
      → All IsSpelled w.chain.utxos
      → Holds
          (λ us w'. IsTracked points (collect us []) (unspent_at w.chain.utxos) w')
          (exec (get_relevant_utxos points) w)
  unfolding get_relevant_utxos
  relevant-IsTracked points w spelled =
      Holds-exec
        (λ us c'. (c' ≡ w.chain) × (us ≡ map utxo_info (select (is_relevant points) w.chain.utxos)))
        _ (get_relevant_utxos points) w (refl, refl)
        (λ us w' h _. record {
          keyed = collect-IsKeyed us [] tt;
          spelled = rw h.0 spelled;
          stands = rw h.0 refl;
          complete = λ p asked gone.
              unspent_at-irrelevant points p w.chain.utxos spelled asked
                (rw h.1 at ((get_utxo-collect p us [] gone).1));
        })

  -- No input of the block spends an output of the block.
  abbrev pub SpendsOutside : BlockInfo → Type 0
  SpendsOutside block = All (IsOutside x block.txdata) (inputs_of block.txdata)

  abbrev pub Applies : BlockInfo → World → World → Type 0
  Applies block w w' =
      (unspent_at w'.chain.utxos ≡ apply_transactions x block.txdata (unspent_at w.chain.utxos))
      × All IsSpelled w'.chain.utxos

  process_block-Applies :
      (block : BlockInfo) (w : World)
      → All IsSpelled w.chain.utxos
      → SpendsOutside block
      → Holds (λ _ w'. Applies block w w') (process_block x block w)
  unfolding process_block
  process_block-Applies block w spelled outside =
      let txs = block.txdata in
      let points = inputs_of txs in
      elim (Option-cases (x.timestamp_opt block.header.time)) [
        | inl e ↦ rw e tt
        | inr (t, e) ↦ rw e (
            Holds-resume (λ _ w₁. w₁.chain.utxos ≡ w.chain.utxos) _ (exec (upsert_block _) w) _
              (Holds-exec _ _ (upsert_block _) w (upsert_block_lem _ w.chain) (λ _ w₁ h _. h))
              (λ _ w₁ same₁.
                Holds-resume (Collects points w₁) _
                  (index_transactions x block.header.hash 0 txs [] w₁) _
                  (index_transactions-Collects block.header.hash 0 txs [] w₁)
                  (λ got w₂ (all, same₂).
                    let same = same₂ ∙ same₁ in
                    Holds-resume
                      (λ us w₃. IsTracked points (collect us []) (unspent_at w.chain.utxos) w₃) _
                      (exec (get_relevant_utxos got) w₂) _
                      (rw (all, ← same) (relevant-IsTracked points w₂ (rw same spelled)))
                      (λ us w₃ t₃.
                        process_transactions-IsTracked points x block.header.height txs
                          (collect us []) (unspent_at w.chain.utxos) w₃ (all-IsAsked txs)
                          (All-swap (λ (p : OutPoint) tx. (x.compute_txid tx == p.txid) ≡ false)
                            points txs outside)
                          t₃))))
      ]

  -- A block that is processed, and of which no input spends an output of the block itself, does to
  -- the table what it does to the set of unspent outputs: transaction by transaction it takes out
  -- what is spent and puts in the taproot outputs with their owners and amounts.
  pub process-Applies :
      (block : BlockInfo) (w : World)
      → All IsSpelled w.chain.utxos
      → SpendsOutside block
      → Holds (λ _ w'. Applies block w w') (process x block w)
  unfolding process
  process-Applies block w spelled outside =
      Commits-Holds w (λ _ w'. Applies block w w') (in_transaction (process_block x block) w)
        (Commits-in_transaction
          (λ _ c _.
            (unspent_at c.utxos ≡ apply_transactions x block.txdata (unspent_at w.chain.utxos))
            × All IsSpelled c.utxos)
          (process_block x block) w
          (λ v c _.
            Holds-mono (λ _ w'. Applies block v w') (λ _ w'. Applies block w w') _
              (process_block-Applies block v (rw c spelled) outside) (λ _ w' h. rw (← c) h)))
