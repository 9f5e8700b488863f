-- ===== src/Aggregator/Balanced.antt =====
-- The balances and the hourly changes agree with the recorded events, however a run ends.
use btc_idx_service.Prelude.{
  none, some, [], inl, inr, ◌∷◌, ◌≡◌, ◌-◌, List, Option, ℕ, if◌then◌else◌, Bool-cases, ltb,
  is_empty, select, true, false, ◌∙◌, refl, last,
}
use btc_idx_service.Prelude.Run.{ok, err, panic, Outcome, Holds, Holds-mono, Holds-resume}
use btc_idx_service.Types.{P2trEvent, Address, AggregatorMsg, event, reorg_from}
use btc_idx_service.Aggregator.State.{M, AggregatorError, Aggregator, exec, in_transaction}
use btc_idx_service.Ledger.{
  pull_pending_p2tr_events, create_pending_p2tr_event, Ledger, fetched, due, decode_all,
  decode_pending, get_p2tr_events_since_block, decode_event, since,
}
use btc_idx_service.Sql.{Statement, delete}
use btc_idx_service.Aggregator.Recording.{
  Recorded, Records, record_event-Records, record_events-Records,
}
use btc_idx_service.Aggregator.Defs.{
  commit_pending_events, handle_event, insert_pending_event, advance, record_event, record_events,
  handle_message, handle_reorg, cleanup, reorg_body, start, ignore_error, reorg_all, last_block_of,
}
use btc_idx_service.Ledger.Totals.{any_block, balance_at, event_total, statistic_total}
use btc_idx_service.Aggregator.Rules.{
  Ends, Ends-exec, Holds-Ends, Ends-resume, Ends-in_transaction, statement_result, After,
  exec-After,
}

-- For each address the balance and the sum of the hourly changes are the sum of its events.
pub record IsBalanced (l : Ledger) : Type 0 where
  pub total : (a : Address) → balance_at a l.balances ≡ event_total any_block a l.events
  pub hourly : (a : Address) → statistic_total a l.statistics ≡ event_total any_block a l.events

-- However the run ended.
abbrev Keeps : {A : Type 0} → Outcome AggregatorError A × Aggregator → Type 0
Keeps r = Ends IsBalanced (λ _ g. IsBalanced g.ledger) r

Keeps-state :
    {A : Type 0} (r : Outcome AggregatorError A × Aggregator) → Keeps r → IsBalanced r.1.ledger
Keeps-state (ok a, g) h = h
Keeps-state (err e, g) h = h
Keeps-state (panic, g) h = h

Recorded-IsBalanced :
    (es : List P2trEvent) (l l' : Ledger) → Recorded es l l' → IsBalanced l → IsBalanced l'
Recorded-IsBalanced es l l' r b = record {
  total = λ a. rw (r.balances a, r.events any_block a, b.total a);
  hourly = λ a. rw (r.statistics a, r.events any_block a, b.hourly a);
}

-- `create_pending_p2tr_event` and `pull_pending_p2tr_events` touch the pending events alone.
create_pending-IsBalanced :
    (e : P2trEvent) (l : Ledger) → IsBalanced l → IsBalanced (create_pending_p2tr_event e l).1
unfolding create_pending_p2tr_event
create_pending-IsBalanced e l b = record { total = b.total; hourly = b.hourly }

pull_pending-IsBalanced :
    (n : ℕ) (l : Ledger) → IsBalanced l → IsBalanced (pull_pending_p2tr_events n l).1
unfolding pull_pending_p2tr_events
pull_pending-IsBalanced n l b = go (decode_all decode_pending (select (due n) l.pending))
  where
    go :
        (o : Option (List P2trEvent))
        → IsBalanced (fetched o (record l { pending = delete (due n) l.pending })).1
    go none = record { total = b.total; hourly = b.hourly }
    go (some es) = record { total = b.total; hourly = b.hourly }

get_events-reads : (n : ℕ) (l : Ledger) → (get_p2tr_events_since_block n l).1 ≡ l
unfolding get_p2tr_events_since_block
get_events-reads n l = go (decode_all decode_event (select (since n) l.events))
  where
    go : (o : Option (List P2trEvent)) → (fetched o l).1 ≡ l
    go none = refl
    go (some es) = refl

pub last_block_of_lem :
    (es : List P2trEvent) (g : Aggregator) → Holds (λ _ g'. g' ≡ g) (last_block_of es g)
last_block_of_lem es g =
    elim (last es)
      as (λ o.
        Holds {S = Aggregator} {E = AggregatorError} {A = ℕ} (λ _ g'. g' ≡ g)
          (elim o [ none ↦ (panic, g) | some e ↦ (ok e.block_number, g) ])) [
            | none ↦ tt
            | some e ↦ refl
          ]

exec-Keeps :
    {A : Type 0} (q : Statement Ledger A) (g : Aggregator)
    → IsBalanced g.ledger
    → IsBalanced (q g.ledger).1
    → Keeps (exec q g)
exec-Keeps q g b b' = Ends-exec IsBalanced _ q g b b' (
    Holds-mono (λ _ l. l ≡ (q g.ledger).1) _ (q g.ledger) (statement_result (q g.ledger))
      (λ _ l e g' e' _. rw (e', e) b'))

transaction-Keeps :
    {A : Type 0} (body : M A) (g : Aggregator)
    → IsBalanced g.ledger
    → ((v : Aggregator) → v.ledger ≡ g.ledger → Holds (λ _ g'. IsBalanced g'.ledger) (body v))
    → Keeps (in_transaction body g)
transaction-Keeps body g b h =
    Ends-in_transaction IsBalanced (λ _ l _. IsBalanced l) body g
      (λ n. record { total = b.total; hourly = b.hourly }) (λ v e _. h v e)

record_events-IsBalanced :
    (es : List P2trEvent) (g : Aggregator)
    → IsBalanced g.ledger
    → Holds (λ _ g'. IsBalanced g'.ledger) (record_events es g)
record_events-IsBalanced es g b =
    Holds-mono (Records es g) _ _ (record_events-Records es g)
      (λ _ g' h. Recorded-IsBalanced es g.ledger g'.ledger h.0 b)

module _ (arrange : List P2trEvent → List P2trEvent) where
  commit_pending_events-Keeps :
      (g : Aggregator) → IsBalanced g.ledger → Keeps (commit_pending_events arrange g)
  unfolding commit_pending_events
  commit_pending_events-Keeps g b = elim (Bool-cases (ltb g.last_block_number 100)) [
    | inl early ↦ rw early b
    | inr due_now ↦ rw due_now (
        let q = pull_pending_p2tr_events (g.last_block_number - 100) in
        Ends-resume IsBalanced (λ _ g'. IsBalanced g'.ledger) _ (exec q g) _
          (exec-Keeps q g b (pull_pending-IsBalanced (g.last_block_number - 100) g.ledger b))
          (λ pulled g₁ b₁. elim (Bool-cases (is_empty pulled)) [
            | inl none_due ↦ rw none_due b₁
            | inr some_due ↦ rw some_due (
                transaction-Keeps (record_events (arrange pulled)) g₁ b₁
                  (λ v e. record_events-IsBalanced (arrange pulled) v (rw e b₁)))
          ]))
  ]

  advance-Keeps : (n : ℕ) (g : Aggregator) → IsBalanced g.ledger → Keeps (advance arrange n g)
  advance-Keeps n g b = elim (Bool-cases (ltb g.last_block_number n)) [
    | inl new ↦ rw new (commit_pending_events-Keeps (record g { last_block_number = n }) b)
    | inr old ↦ rw old b
  ]

  handle_event-Keeps :
      (e : P2trEvent) (g : Aggregator) → IsBalanced g.ledger → Keeps (handle_event arrange e g)
  unfolding handle_event insert_pending_event
  handle_event-Keeps e g b =
      Ends-resume IsBalanced (λ _ g'. IsBalanced g'.ledger) _ (in_transaction (stored e) g) _
        (transaction-Keeps (stored e) g b (λ v same. body v (rw same b)))
        (λ _ g' b'. advance-Keeps e.block_number g' b')
    where
      stored : P2trEvent → M (Unit {0})
      stored e = if e.is_coinbase then insert_pending_event e else record_event e

      body :
          (v : Aggregator) → IsBalanced v.ledger → Holds (λ _ g'. IsBalanced g'.ledger) (stored e v)
      body v b =
          elim e.is_coinbase
            as (λ c.
              Holds (λ _ g'. IsBalanced g'.ledger)
                ((if c then insert_pending_event e else record_event e) v)) [
                  | true ↦
                      Holds-Ends IsBalanced (λ _ g'. IsBalanced g'.ledger) _
                        (exec-Keeps (create_pending_p2tr_event e) v b
                          (create_pending-IsBalanced e v.ledger b))
                  | false ↦
                      Holds-mono (Records (e ∷ []) v) _ _ (record_event-Records e v)
                        (λ _ g' h. Recorded-IsBalanced (e ∷ []) v.ledger g'.ledger h.0 b)
                ]

  reorg_body-IsBalanced :
      (n : ℕ) (g : Aggregator)
      → IsBalanced g.ledger
      → Holds (λ _ g'. IsBalanced g'.ledger) (reorg_body arrange n g)
  unfolding reorg_body
  reorg_body-IsBalanced n g b =
      Holds-resume (After g.ledger g.last_block_number) _ (exec (get_p2tr_events_since_block n) g) _
        (Holds-mono (After (get_p2tr_events_since_block n g.ledger).1 g.last_block_number) _ _
          (exec-After (get_p2tr_events_since_block n) g)
          (λ _ g₁ h. (h.0 ∙ get_events-reads n g.ledger, h.1)))
        (λ fetched g₁ h₁.
          Holds-resume (λ _ g'. g' ≡ g₁) _ (last_block_of (arrange fetched) g₁) _
            (last_block_of_lem (arrange fetched) g₁)
            (λ n g₁' same.
              let es = reorg_all (arrange fetched) in
              Holds-resume (λ _ g'. IsBalanced g'.ledger) _ (record_events es g₁') _
                (record_events-IsBalanced es g₁' (rw (same, h₁.0) b))
                (λ _ g₂ b₂.
                  let q = pull_pending_p2tr_events n in
                  Holds-resume (λ _ g'. IsBalanced g'.ledger) _ (exec q g₂) _
                    (Holds-Ends IsBalanced (λ _ g'. IsBalanced g'.ledger) _
                      (exec-Keeps q g₂ b₂ (pull_pending-IsBalanced n g₂.ledger b₂)))
                    (λ _ g₃ b₃. b₃))))

  handle_reorg-Keeps :
      (n : ℕ) (g : Aggregator) → IsBalanced g.ledger → Keeps (handle_reorg arrange n g)
  unfolding handle_reorg
  handle_reorg-Keeps n g b =
      Ends-resume IsBalanced (λ _ g'. IsBalanced g'.ledger) _
        (in_transaction (reorg_body arrange n) g) _
        (transaction-Keeps (reorg_body arrange n) g b (λ v e. reorg_body-IsBalanced n v (rw e b)))
        (λ _ g' b'. b')

  handle_message-Keeps :
      (m : AggregatorMsg) (g : Aggregator)
      → IsBalanced g.ledger
      → Keeps (handle_message arrange m g)
  unfolding handle_message
  handle_message-Keeps (event e) g b = handle_event-Keeps e g b
  handle_message-Keeps (reorg_from n) g b = handle_reorg-Keeps n g b

  start-Keeps :
      (ms : List AggregatorMsg) (g : Aggregator) → IsBalanced g.ledger → Keeps (start arrange ms g)
  unfolding start
  start-Keeps [] g b = b
  start-Keeps (m ∷ ms) g b =
      Ends-resume IsBalanced (λ _ g'. IsBalanced g'.ledger) _ (handle_message arrange m g) _
        (handle_message-Keeps m g b) (λ _ g' b'. start-Keeps ms g' b')

  cleanup-Keeps :
      (ms : List AggregatorMsg) (g : Aggregator)
      → IsBalanced g.ledger
      → Keeps (cleanup arrange ms g)
  unfolding cleanup
  cleanup-Keeps [] g b = b
  cleanup-Keeps (m ∷ ms) g b =
      Ends-resume IsBalanced (λ _ g'. IsBalanced g'.ledger) _
        (ignore_error (handle_message arrange m g)) _
        (ignored (handle_message arrange m g) (handle_message-Keeps m g b))
        (λ _ g' b'. cleanup-Keeps ms g' b')
    where
      ignored :
          (r : Outcome AggregatorError (Unit {0}) × Aggregator) → Keeps r → Keeps (ignore_error r)
      ignored (ok a, g') h = h
      ignored (err e, g') h = h
      ignored (panic, g') h = h

  -- After any messages, whatever the faults of the connection and however the run ended, by a
  -- return, an error or a panic: if for each address the balance and the sum of the hourly changes
  -- were the sum of its recorded events, they still are. That holds of the main loop, and of the
  -- clean-up that follows it on further messages.
  pub start-cleanup-IsBalanced :
      (ms late : List AggregatorMsg) (g : Aggregator)
      → IsBalanced g.ledger
      → IsBalanced (start arrange ms g).1.ledger
        × IsBalanced (cleanup arrange late (start arrange ms g).1).1.ledger
  start-cleanup-IsBalanced ms late g b =
      let b' = Keeps-state _ (start-Keeps ms g b) in
      (b', Keeps-state _ (cleanup-Keeps late (start arrange ms g).1 b'))
