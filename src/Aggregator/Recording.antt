-- ===== src/Aggregator/Recording.antt =====
-- What recording a list of events does to the ledger tables.
use btc_idx_service.Prelude.{[], ◌∷◌, ◌≡◌, ◌∙◌, refl, List, Bool, ℕ}
use btc_idx_service.Ledger.{
  create_p2tr_event, increment_btc_balance, Ledger, increment_static_balances,
}
use btc_idx_service.Ledger.Totals.{
  amount_total, event_total, balance_at-upsert, balance_at, statistic_total-upsert, any_block,
  statistic_total,
}
use btc_idx_service.Types.{P2trEvent, Address}
use btc_idx_service.Aggregator.Defs.{
  record_event, insert_event, update_total_balance, update_statistic_balance_change, record_events,
  hour_of,
}
use btc_idx_service.Prelude.Int.{int_laws, ◌+ℤ◌}
use btc_idx_service.Aggregator.State.{Aggregator, exec, now}
use btc_idx_service.Prelude.Run.{Holds, Holds-resume, Holds-mono}
use btc_idx_service.Aggregator.Rules.{After, exec-After}

-- From `l` to `l'` each total of an address has moved by what the events say, in the recorded events
-- in every choice `p` of blocks; the pending events are as before.
pub record Recorded (es : List P2trEvent) (l l' : Ledger) : Type 0 where
  pub events :
      (p : ℕ → Bool) (a : Address)
      → event_total p a l'.events ≡ event_total p a l.events +ℤ amount_total p a es
  pub balances :
      (a : Address)
      → balance_at a l'.balances ≡ balance_at a l.balances +ℤ amount_total any_block a es
  pub statistics :
      (a : Address)
      → statistic_total a l'.statistics
        ≡ statistic_total a l.statistics +ℤ amount_total any_block a es
  pub pending : l'.pending ≡ l.pending

pub Recorded-nil : (l : Ledger) → Recorded [] l l
unfolding amount_total
Recorded-nil l = record {
  events = λ p a. omega int_laws;
  balances = λ a. omega int_laws;
  statistics = λ a. omega int_laws;
  pending = refl;
}

pub Recorded-cons :
    (e : P2trEvent) (es : List P2trEvent) {l l' l'' : Ledger}
    → Recorded (e ∷ []) l l'
    → Recorded es l' l''
    → Recorded (e ∷ es) l l''
unfolding amount_total
Recorded-cons e es r s = record {
  events = λ p a. rw (s.events p a, r.events p a) (omega int_laws);
  balances = λ a. rw (s.balances a, r.balances a) (omega int_laws);
  statistics = λ a. rw (s.statistics a, r.statistics a) (omega int_laws);
  pending = s.pending ∙ r.pending;
}

-- The tables after the three statements of one event.
abbrev recorded : P2trEvent → ℕ → ℕ → ℕ → Ledger → Ledger
recorded e t hour t' l =
    (increment_static_balances e.address e.amount hour t'
      (increment_btc_balance e.address e.amount t (create_p2tr_event e l).1).1).1

statements-Recorded :
    (e : P2trEvent) (t hour t' : ℕ) (l : Ledger) → Recorded (e ∷ []) l (recorded e t hour t' l)
unfolding create_p2tr_event increment_btc_balance increment_static_balances event_total amount_total
statements-Recorded e t hour t' l = record {
  events = λ p a. grind int_laws;
  balances = λ a. rw (balance_at-upsert a e.address e.amount t l.balances) (grind int_laws);
  statistics =
      λ a. rw (statistic_total-upsert a e.address e.amount hour t' l.statistics) (grind int_laws);
  pending = refl;
}

-- The tables have moved as recording `es` moves them, and the counter has not.
abbrev pub Records : {A : Type 0} → List P2trEvent → Aggregator → A → Aggregator → Type 0
Records es g _ g' = Recorded es g.ledger g'.ledger × (g'.last_block_number ≡ g.last_block_number)

insert_event-After :
    (e : P2trEvent) (g : Aggregator)
    → Holds (After (create_p2tr_event e g.ledger).1 g.last_block_number) (insert_event e g)
unfolding insert_event
insert_event-After e g =
    Holds-resume (After (create_p2tr_event e g.ledger).1 g.last_block_number) _
      (exec (create_p2tr_event e) g) _ (exec-After (create_p2tr_event e) g) (λ _ g' h. h)

pub record_event-Records :
    (e : P2trEvent) (g : Aggregator) → Holds (Records (e ∷ []) g) (record_event e g)
unfolding record_event update_total_balance update_statistic_balance_change
record_event-Records e g =
    Holds-resume (After (create_p2tr_event e g.ledger).1 g.last_block_number) _ (insert_event e g) _
      (insert_event-After e g)
      (λ _ g₁ h₁.
        let t = g₁.clock g₁.readings in
        let q = increment_btc_balance e.address e.amount t in
        Holds-resume (After (q g₁.ledger).1 g₁.last_block_number) _ (exec q (now g₁).1) _
          (exec-After q (now g₁).1)
          (λ _ g₂ h₂.
            let t' = g₂.clock g₂.readings in
            let q' = increment_static_balances e.address e.amount (hour_of t') t' in
            Holds-mono (After (q' g₂.ledger).1 g₂.last_block_number) _ _ (exec-After q' (now g₂).1)
              (λ _ g₃ h₃. (
                rw (h₃.0, h₂.0, h₁.0) (statements-Recorded e t (hour_of t') t' g.ledger),
                h₃.1 ∙ (h₂.1 ∙ h₁.1),
              ))))

pub record_events-Records :
    (es : List P2trEvent) (g : Aggregator) → Holds (Records es g) (record_events es g)
unfolding record_events
record_events-Records [] g = (Recorded-nil g.ledger, refl)
record_events-Records (e ∷ es) g =
    Holds-resume (Records (e ∷ []) g) _ (record_event e g) _ (record_event-Records e g) (λ _ g₁ h₁.
      Holds-mono (Records es g₁) _ _ (record_events-Records es g₁)
        (λ _ g₂ h₂. (Recorded-cons e es h₁.0 h₂.0, h₂.1 ∙ h₁.1)))
