-- ===== src/Aggregator/Liveness.antt =====
-- Without faults the events of the processor are all handled: the loop returns.
use btc_idx_service.Prelude.{
  some, [], true, false, inl, inr, ◌∷◌, ◌≡◌, ◌-◌, refl, List, Bool, ℕ, if◌then◌else◌, All, select,
  Bool-cases, ltb, is_empty, All-select, not, arith, subst, sym,
}
use btc_idx_service.Prelude.Run.{
  ok, err, panic, Returns, Returns-resume, Outcome, resume, pure, ◌>>◌,
}
use btc_idx_service.Sql.{Statement}
use btc_idx_service.Aggregator.Defs.{
  record_events, insert_pending_event, handle_event, start, commit_pending_events, handle_message,
  advance, record_event,
}
use btc_idx_service.Ledger.{
  pull_pending_p2tr_events, PendingRow, create_pending_p2tr_event, Ledger, decode_all,
  decode_pending, due,
}
use btc_idx_service.Types.{P2trEvent, AggregatorMsg, reorg_from, event}
use btc_idx_service.Aggregator.State.{
  M, Aggregator, exec, settle, in_transaction, AggregatorError, conclude,
}
use btc_idx_service.Aggregator.Faults.{
  IsQuiet, IsReadable, action_try_from-to_i16, record_event-IsQuiet, with_faults,
}
use btc_idx_service.Processor.Messages.{IsEventOf}

pub record_events-IsQuiet :
    (es : List P2trEvent) (g : Aggregator)
    → IsQuiet g
    → Returns (λ _ g'. IsQuiet g') (record_events es g)
unfolding record_events
record_events-IsQuiet [] g q = q
record_events-IsQuiet (e ∷ es) g q =
    Returns-resume (λ _ g'. IsQuiet g') _ (record_event e g) _ (record_event-IsQuiet e g q)
      (λ _ g' q'. record_events-IsQuiet es g' q')

pub exec_quiet :
    {A : Type 0} (q : Statement Ledger A) (g : Aggregator)
    → g.faults ≡ []
    → exec q g ≡ settle (q g.ledger) g
exec_quiet q g f = subst (λ v. exec q v ≡ settle (q v.ledger) v) (sym (with_faults g [] f)) refl

-- Readable rows decode.
decode_readable :
    (rs : List PendingRow)
    → All IsReadable rs
    → (es : List P2trEvent) × (decode_all decode_pending rs ≡ some es)
decode_readable [] h = ([], refl)
decode_readable (r ∷ rs) h =
    let (es, e) = decode_readable rs h.1 in
    let (k, f) = h.0 in
    (
      record {
        sequence_id = 0;
        block_number = r.block_number;
        txid = r.tx_hash;
        address = r.address;
        amount = r.amount;
        action = k;
        is_coinbase = r.is_coinbase;
      }
          ∷ es,
      ground arith,
    )

pub pull_pending-IsQuiet :
    (n : ℕ) (g : Aggregator)
    → IsQuiet g
    → Returns (λ _ g'. IsQuiet g') (exec (pull_pending_p2tr_events n) g)
unfolding pull_pending_p2tr_events
pull_pending-IsQuiet n g q =
    let (es, e) =
      decode_readable (select (due n) g.ledger.pending)
        (All-select IsReadable (due n) g.ledger.pending q.readable) in
    rw (exec_quiet (pull_pending_p2tr_events n) g q.sound, e)
      (record {
        sound = q.sound;
        readable = All-select IsReadable (λ r. not (due n r)) g.ledger.pending q.readable;
      })

create_pending-IsQuiet :
    (e : P2trEvent) (g : Aggregator)
    → IsQuiet g
    → Returns (λ _ g'. IsQuiet g') (insert_pending_event e g)
unfolding insert_pending_event create_pending_p2tr_event
create_pending-IsQuiet e g q = rw (exec_quiet (create_pending_p2tr_event e) g q.sound) (record {
  sound = q.sound;
  readable = ((e.action, action_try_from-to_i16 e.action), q.readable);
})

pub transaction-IsQuiet :
    {A : Type 0} (body : M A) (g : Aggregator)
    → IsQuiet g
    → Returns (λ _ g'. IsQuiet g') (body g)
    → Returns (λ _ g'. IsQuiet g') (in_transaction body g)
transaction-IsQuiet {A = A} body g q h = rw (exec_quiet (pure tt) g q.sound) (done (body g) h)
  where
    done :
        (r : Outcome AggregatorError A × Aggregator)
        → Returns (λ _ g'. IsQuiet g') r
        → Returns
            (λ _ g'. IsQuiet g')
            (conclude g.ledger (resume r (λ a. exec (pure tt) >> pure a)))
    done (ok a, g') k = rw (exec_quiet (pure tt) g' k.sound) k
    done (err e, g') k = absurd k
    done (panic, g') k = absurd k

module _ (arrange : List P2trEvent → List P2trEvent) where
  commit_pending_events-IsQuiet :
      (g : Aggregator) → IsQuiet g → Returns (λ _ g'. IsQuiet g') (commit_pending_events arrange g)
  unfolding commit_pending_events
  commit_pending_events-IsQuiet g q = elim (Bool-cases (ltb g.last_block_number 100)) [
    | inl early ↦ rw early q
    | inr due_now ↦ rw due_now (
        Returns-resume (λ _ g'. IsQuiet g') _
          (exec (pull_pending_p2tr_events (g.last_block_number - 100)) g) _
          (pull_pending-IsQuiet (g.last_block_number - 100) g q)
          (λ es g₁ q₁. elim (Bool-cases (is_empty es)) [
            | inl nothing ↦ rw nothing q₁
            | inr something ↦ rw something (
                transaction-IsQuiet (record_events (arrange es)) g₁ q₁
                  (record_events-IsQuiet (arrange es) g₁ q₁))
          ]))
  ]

  advance-IsQuiet :
      (n : ℕ) (g : Aggregator) → IsQuiet g → Returns (λ _ g'. IsQuiet g') (advance arrange n g)
  advance-IsQuiet n g q = elim (Bool-cases (ltb g.last_block_number n)) [
    | inl new ↦ rw new (
        commit_pending_events-IsQuiet (record g { last_block_number = n })
          (record { sound = q.sound; readable = q.readable }))
    | inr old ↦ rw old q
  ]

  stored-IsQuiet :
      (e : P2trEvent) (c : Bool) (v : Aggregator)
      → IsQuiet v
      → Returns (λ _ g'. IsQuiet g') ((if c then insert_pending_event e else record_event e) v)
  stored-IsQuiet e true v q = create_pending-IsQuiet e v q
  stored-IsQuiet e false v q = record_event-IsQuiet e v q

  pub handle_event-IsQuiet :
      (e : P2trEvent) (g : Aggregator)
      → IsQuiet g
      → Returns (λ _ g'. IsQuiet g') (handle_event arrange e g)
  unfolding handle_event
  handle_event-IsQuiet e g q =
      Returns-resume (λ _ g'. IsQuiet g') _
        (in_transaction (if e.is_coinbase then insert_pending_event e else record_event e) g) _
        (transaction-IsQuiet (if e.is_coinbase then insert_pending_event e else record_event e) g q
          (stored-IsQuiet e e.is_coinbase g q))
        (λ _ g' q'. advance-IsQuiet e.block_number g' q')

  -- Without faults and from readable pending rows, the loop over events of a block returns, and leaves
  -- readable pending rows.
  pub start-Returns :
      (n : ℕ) (ms : List AggregatorMsg) (g : Aggregator)
      → All (IsEventOf n) ms
      → IsQuiet g
      → Returns (λ _ g'. IsQuiet g') (start arrange ms g)
  unfolding start handle_message
  start-Returns n [] g h q = q
  start-Returns n (reorg_from m ∷ ms) g h q = absurd h.0
  start-Returns n (event e ∷ ms) g h q =
      Returns-resume (λ _ g'. IsQuiet g') _ (handle_event arrange e g) _
        (handle_event-IsQuiet e g q) (λ _ g' q'. start-Returns n ms g' h.1 q')
