-- ===== src/Processor/Messages.antt =====
-- What the processor tells the aggregator about a block.
use btc_idx_service.Prelude.{
  some, [], inl, inr, ◌∷◌, ◌≡◌, ◌+◌, ◌++◌, ◌∙◌, refl, List, Bool, ℕ, append_assoc, sym, All,
  All-append, append-nil, Bool-cases, Option-cases, zero, suc, arith,
}
use btc_idx_service.Prelude.Run.{ok, err, panic, Holds, ◌>>=◌, Outcome, Holds-resume, Holds-mono}
use btc_idx_service.Prelude.Int.{pos, negsuc, ℤ}
use btc_idx_service.Types.{
  AggregatorMsg, Txid, TxIn, event, BlockHash, Transaction, TxOut, BlockInfo, OutPoint, reorg_from,
  Action, new_event, receive, send, reorg,
}
use btc_idx_service.Sql.{Statement, SqlError}
use btc_idx_service.Processor.State.{Externals, World, M, exec, send_unwrap, in_transaction}
use btc_idx_service.Processor.Defs.{
  send_events, spend_inputs, process_block, index_transactions, process, create_outputs,
  process_transactions, BalanceMap, action_of, UtxoMap, get_utxo, collect,
}
use btc_idx_service.Chain.{
  Chain, upsert_transaction, upsert_block, create_utxo, get_relevant_utxos, spend_utxo,
}
use btc_idx_service.Processor.Rules.{Holds-exec, Commits-Holds, Commits-in_transaction}

-- What an event takes from or gives to its address: `receive` goes with a positive amount, `send` with
-- a negative one, and none with zero.
abbrev pub IsSigned : Action → ℤ → Type 0
IsSigned receive v = (n : ℕ) × (v ≡ pos (suc n))
IsSigned send v = (n : ℕ) × (v ≡ negsuc n)
IsSigned reorg v = ⊥

action_of_lem : (v : ℤ) (k : Action) → action_of v ≡ some k → IsSigned k v
unfolding action_of
action_of_lem (pos zero) k e = absurd (ground (arith, e))
action_of_lem (pos (suc n)) receive e = (n, refl)
action_of_lem (pos (suc n)) send e = absurd (ground (arith, e))
action_of_lem (pos (suc n)) reorg e = absurd (ground (arith, e))
action_of_lem (negsuc n) send e = (n, refl)
action_of_lem (negsuc n) receive e = absurd (ground (arith, e))
action_of_lem (negsuc n) reorg e = absurd (ground (arith, e))

-- A message of the block at height `n`: an event with an amount of the sign of its action.
abbrev pub IsEventOf : ℕ → AggregatorMsg → Type 0
IsEventOf n (event e) = (e.block_number ≡ n) × IsSigned e.action e.amount
IsEventOf n (reorg_from m) = ⊥

-- From `w` on, messages of the block at height `n` have been added to the channel, and none taken.
abbrev pub Sends : {A : Type 0} → ℕ → World → A → World → Type 0
Sends n w _ w' = (ms : List AggregatorMsg) × (w'.sent ≡ w.sent ++ ms) × All (IsEventOf n) ms

Sends-none : (n : ℕ) (w w' : World) → w'.sent ≡ w.sent → Sends {A = Unit {0}} n w tt w'
Sends-none n w w' e = ([], e ∙ sym (append-nil w.sent), tt)

Sends-more :
    (n : ℕ) (w w' w'' : World)
    → Sends {A = Unit {0}} n w tt w'
    → Sends {A = Unit {0}} n w' tt w''
    → Sends {A = Unit {0}} n w tt w''
Sends-more n w w' w'' (ms, e, h) (ks, f, k) =
    (ms ++ ks, rw (f, e) (append_assoc w.sent ms ks), All-append (IsEventOf n) ms ks h k)

pub returned : {A : Type 0} (r : Outcome SqlError A × Chain) → Holds (λ _ _. Unit {0}) r
returned (ok a, c) = tt
returned (err e, c) = tt
returned (panic, c) = tt

exec-Sends : {A : Type 0} (n : ℕ) (q : Statement Chain A) (w : World) → Holds (Sends n w) (exec q w)
exec-Sends n q w =
    Holds-exec (λ _ _. Unit) _ q w (returned (q w.chain)) (λ _ w' _ s. Sends-none n w w' s)

-- A step, and then the rest.
then_Sends :
    {A B : Type 0} (n : ℕ) (w : World) (m : M A) (f : A → M B)
    → Holds (Sends n w) (m w)
    → ((a : A) (w' : World) → Holds (Sends n w') (f a w'))
    → Holds (Sends n w) ((m >>= f) w)
then_Sends n w m f h k = Holds-resume (Sends n w) (Sends n w) (m w) f h (λ a w' s.
    Holds-mono (Sends n w') (Sends n w) (f a w') (k a w') (λ _ w'' s'. Sends-more n w w' w'' s s'))

spend_inputs-Sends :
    (n : ℕ) (ins : List TxIn) (known : UtxoMap) (updates : BalanceMap) (w : World)
    → Holds (Sends n w) (spend_inputs n ins known updates w)
unfolding spend_inputs
spend_inputs-Sends n [] known updates w = Sends-none n w w refl
spend_inputs-Sends n (txin ∷ rest) known updates w =
    elim (Option-cases (get_utxo txin.previous_output known)) [
      | inl e ↦ rw (e, spend_inputs) (spend_inputs-Sends n rest known updates w)
      | inr (u, e) ↦
          rw (e, spend_inputs)
            (then_Sends n w (exec (spend_utxo u.txid u.vout n)) _
              (exec-Sends n (spend_utxo u.txid u.vout n) w)
              (λ _ w'. spend_inputs-Sends n rest _ _ w'))
    ]

send_events-Sends :
    (n : ℕ) (txid : Txid) (coinbase : Bool) (l : BalanceMap) (w : World)
    → Holds (Sends n w) (send_events n txid coinbase l w)
unfolding send_events
send_events-Sends n txid coinbase [] w = Sends-none n w w refl
send_events-Sends n txid coinbase ((address, value) ∷ rest) w =
    elim (Option-cases (action_of value)) [
      | inl z ↦ rw (z, send_events) (send_events-Sends n txid coinbase rest w)
      | inr (k, z) ↦
          rw (z, send_events)
            (then_Sends n w (send_unwrap (event (new_event n txid address value k coinbase))) _
              (sent k z) (λ _ w'. send_events-Sends n txid coinbase rest w'))
    ]
  where
    sent :
        (k : Action)
        → action_of value ≡ some k
        → Holds (Sends n w) (send_unwrap (event (new_event n txid address value k coinbase)) w)
    sent k z = elim (Bool-cases w.receiving) [
      | inr closed ↦ rw closed tt
      | inl receiving ↦ rw receiving (
        event (new_event n txid address value k coinbase) ∷ [],
        refl,
        ((refl, action_of_lem value k z), tt),
      )
    ]

module _ (x : Externals) where
  create_outputs-Sends :
      (n : ℕ) (txid : Txid) (idx : ℕ) (outs : List TxOut) (updates : BalanceMap) (w : World)
      → Holds (Sends n w) (create_outputs x n txid idx outs updates w)
  unfolding create_outputs
  create_outputs-Sends n txid idx [] updates w = Sends-none n w w refl
  create_outputs-Sends n txid idx (txout ∷ rest) updates w =
      elim (Bool-cases (x.is_p2tr txout.script_pubkey)) [
        | inr e ↦ rw (e, create_outputs) (create_outputs-Sends n txid (idx + 1) rest updates w)
        | inl e ↦
            rw (e, create_outputs)
              (elim (Option-cases (x.from_script txout.script_pubkey)) [
                | inl f ↦ rw f tt
                | inr (owner, f) ↦ rw f (
                    then_Sends n w (exec (create_utxo owner txid idx (pos txout.value) n)) _
                      (exec-Sends n (create_utxo owner txid idx (pos txout.value) n) w)
                      (λ _ w'. create_outputs-Sends n txid (idx + 1) rest _ w'))
              ])
      ]

  process_transactions-Sends :
      (n : ℕ) (txs : List Transaction) (known : UtxoMap) (w : World)
      → Holds (Sends n w) (process_transactions x n txs known w)
  unfolding process_transactions
  process_transactions-Sends n [] known w = Sends-none n w w refl
  process_transactions-Sends n (tx ∷ rest) known w =
      then_Sends n w (spend_inputs n tx.input known []) _ (spend_inputs-Sends n tx.input known [] w)
        (λ r w₁.
          then_Sends n w₁ (create_outputs x n (x.compute_txid tx) 0 tx.output r.1) _
            (create_outputs-Sends n (x.compute_txid tx) 0 tx.output r.1 w₁)
            (λ u w₂.
              then_Sends n w₂ (send_events n (x.compute_txid tx) (x.is_coinbase tx) (x.walk u)) _
                (send_events-Sends n (x.compute_txid tx) (x.is_coinbase tx) (x.walk u) w₂)
                (λ _ w₃. process_transactions-Sends n rest r.0 w₃)))

  index_transactions-Sends :
      (n : ℕ) (hash : BlockHash) (idx : ℕ) (txs : List Transaction) (points : List OutPoint)
      (w : World)
      → Holds (Sends n w) (index_transactions x hash idx txs points w)
  unfolding index_transactions
  index_transactions-Sends n hash idx [] points w = Sends-none n w w refl
  index_transactions-Sends n hash idx (tx ∷ rest) points w =
      then_Sends n w (exec (upsert_transaction _)) _ (exec-Sends n (upsert_transaction _) w)
        (λ _ w'. index_transactions-Sends n hash (idx + 1) rest _ w')

  pub process_block-Sends :
      (block : BlockInfo) (w : World)
      → Holds (Sends block.header.height w) (process_block x block w)
  unfolding process_block
  process_block-Sends block w =
      let n = block.header.height in
      elim (Option-cases (x.timestamp_opt block.header.time)) [
        | inl e ↦ rw e tt
        | inr (t, e) ↦ rw e (
            then_Sends n w (exec (upsert_block _)) _ (exec-Sends n (upsert_block _) w) (λ _ w₁.
              then_Sends n w₁ (index_transactions x block.header.hash 0 block.txdata []) _
                (index_transactions-Sends n block.header.hash 0 block.txdata [] w₁)
                (λ points w₂.
                  then_Sends n w₂ (exec (get_relevant_utxos points)) _
                    (exec-Sends n (get_relevant_utxos points) w₂)
                    (λ us w₃. process_transactions-Sends n block.txdata (collect us []) w₃))))
      ]

  -- A block that is processed adds only events of its own height to the channel, each with an amount
  -- that is not zero and the action `receive` for a positive and `send` for a negative one.
  pub process-Sends :
      (block : BlockInfo) (w : World) → Holds (Sends block.header.height w) (process x block w)
  unfolding process
  process-Sends block w =
      let n = block.header.height in
      Commits-Holds w (Sends n w) (in_transaction (process_block x block) w) (
        Commits-in_transaction
          (λ _ _ sent. (ms : List AggregatorMsg) × (sent ≡ w.sent ++ ms) × All (IsEventOf n) ms)
          (process_block x block) w
          (λ v c s.
            Holds-mono (Sends n v) (Sends n w) _ (process_block-Sends block v)
              (λ _ w' (ms, e, h). (ms, rw (← s) e, h))))
