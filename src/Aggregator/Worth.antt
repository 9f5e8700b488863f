-- ===== src/Aggregator/Worth.antt =====
-- The recorded and the pending events together: a message adds its amount once, and settling moves
-- amounts from the pending events to the recorded ones.
use btc_idx_service.Prelude.{
  none, some, [], inl, inr, ◌∷◌, ◌≡◌, refl, List, Option, ℕ, Perm, Bool-cases, ltb, select, leb,
  true, false, ◌-◌, ◌==◌, Bool, if◌then◌else◌, is_empty, sym,
}
use btc_idx_service.Types.{P2trEvent, Address}
use btc_idx_service.Ledger.{
  pull_pending_p2tr_events, create_pending_p2tr_event, Ledger, decode_all, decode_pending, due,
  fetched,
}
use btc_idx_service.Aggregator.State.{Aggregator, exec, in_transaction}
use btc_idx_service.Aggregator.Defs.{
  commit_pending_events, record_events, insert_pending_event, handle_event, advance, record_event,
}
use btc_idx_service.Prelude.Int.{ℤ, ◌+ℤ◌, int_laws, pos}
use btc_idx_service.Ledger.Totals.{
  pending_total, event_total, amount_total, any_block, pending_total-decode, amount_total-perm,
}
use btc_idx_service.Prelude.Run.{Holds, Holds-mono, Holds-resume, pure}
use btc_idx_service.Aggregator.Recording.{Records, record_events-Records, record_event-Records}
use btc_idx_service.Sql.{delete}
use btc_idx_service.Aggregator.Rules.{Holds-exec, Holds-in_transaction, After, exec-After}

-- `arrange` gives each row once, in any order.
abbrev pub IsArrangement : (List P2trEvent → List P2trEvent) → Type 0
IsArrangement arrange = (es : List P2trEvent) → Perm (arrange es) es

-- All that the ledger holds of an address, settled or pending.
unfoldable pub worth : Address → Ledger → ℤ
worth a l = event_total any_block a l.events +ℤ pending_total any_block a l.pending

-- From `l` to `l'` the worth of `a` has grown by `v`.
abbrev Grows : Address → ℤ → Ledger → Ledger → Type 0
Grows a v l l' = worth a l' ≡ worth a l +ℤ v

record_events-Grows :
    (a : Address) (es : List P2trEvent) (g : Aggregator)
    → Holds (λ _ g'. Grows a (amount_total any_block a es) g.ledger g'.ledger) (record_events es g)
unfolding worth
record_events-Grows a es g =
    Holds-mono (Records es g) _ _ (record_events-Records es g)
      (λ _ g' h. rw (h.0.events any_block a, h.0.pending) (omega int_laws))

create_pending-Grows :
    (a : Address) (e : P2trEvent) (l : Ledger)
    → Grows a (amount_total any_block a (e ∷ [])) l (create_pending_p2tr_event e l).1
unfolding worth create_pending_p2tr_event pending_total amount_total
create_pending-Grows a e l = omega int_laws

pub pull_pending_lem :
    (n : ℕ) (l : Ledger)
    → Holds
        (λ es l'.
          (decode_all decode_pending (select (due n) l.pending) ≡ some es)
          × (l' ≡ record l { pending = delete (due n) l.pending }))
        (pull_pending_p2tr_events n l)
unfolding pull_pending_p2tr_events
pull_pending_lem n l = go (decode_all decode_pending (select (due n) l.pending)) refl
  where
    go :
        (o : Option (List P2trEvent))
        → decode_all decode_pending (select (due n) l.pending) ≡ o
        → Holds
            (λ es l'.
              (decode_all decode_pending (select (due n) l.pending) ≡ some es)
              × (l' ≡ record l { pending = delete (due n) l.pending }))
            (fetched o (record l { pending = delete (due n) l.pending }))
    go none e = tt
    go (some es) e = (e, refl)

-- What a pull takes out of the pending events is what it returns.
pulled-Grows :
    (a : Address) (n : ℕ) (l : Ledger) (es : List P2trEvent)
    → decode_all decode_pending (select (due n) l.pending) ≡ some es
    → Grows a (amount_total any_block a es) (record l { pending = delete (due n) l.pending }) l
unfolding worth
pulled-Grows a n l es e =
    rw (← pending_total-decode any_block (λ b. leb b n) a l.pending es e) (omega int_laws)

Grows-trans :
    (a : Address) (v v' : ℤ) (l l' l'' : Ledger)
    → Grows a v l l'
    → Grows a v' l' l''
    → Grows a (v +ℤ v') l l''
Grows-trans a v v' l l' l'' h k = rw (k, h) (omega int_laws)

module _ (arrange : List P2trEvent → List P2trEvent) (arranged : IsArrangement arrange)
    (a : Address) where
  settle-Grows :
      (es : List P2trEvent) (l : Ledger) (g : Aggregator)
      → Grows a (amount_total any_block a es) g.ledger l
      → Holds
          (λ _ g'. worth a g'.ledger ≡ worth a l)
          ((if is_empty es then pure tt else in_transaction (record_events (arrange es))) g)
  unfolding amount_total
  settle-Grows [] l g e = rw e (omega int_laws)
  settle-Grows (x ∷ es) l g e =
      Holds-in_transaction (λ _ l' _. worth a l' ≡ worth a l) (record_events (arrange (x ∷ es))) g
        (λ v same _.
          Holds-mono
            (λ _ g'. Grows a (amount_total any_block a (arrange (x ∷ es))) v.ledger g'.ledger)
            (λ _ g'. worth a g'.ledger ≡ worth a l) _ (record_events-Grows a (arrange (x ∷ es)) v)
            (λ _ g' h. rw (h, same, amount_total-perm any_block a (arranged (x ∷ es))) (sym e)))

  -- Settling what is due keeps the worth.
  commit_pending_events-Grows :
      (g : Aggregator)
      → Holds (λ _ g'. worth a g'.ledger ≡ worth a g.ledger) (commit_pending_events arrange g)
  unfolding commit_pending_events
  commit_pending_events-Grows g = elim (Bool-cases (ltb g.last_block_number 100)) [
    | inl early ↦ rw early refl
    | inr due_now ↦ rw due_now (
        let n = g.last_block_number - 100 in
        Holds-resume (λ es g'. Grows a (amount_total any_block a es) g'.ledger g.ledger) _
          (exec (pull_pending_p2tr_events n) g) _
          (Holds-exec _ _ (pull_pending_p2tr_events n) g (pull_pending_lem n g.ledger)
            (λ es g' h _. rw (h.1) (pulled-Grows a n g.ledger es h.0)))
          (λ es g' h. settle-Grows es g.ledger g' h))
  ]

  advance-Grows :
      (n : ℕ) (g : Aggregator)
      → Holds (λ _ g'. worth a g'.ledger ≡ worth a g.ledger) (advance arrange n g)
  advance-Grows n g = elim (Bool-cases (ltb g.last_block_number n)) [
    | inl new ↦ rw new (commit_pending_events-Grows (record g { last_block_number = n }))
    | inr old ↦ rw old refl
  ]

  stored-Grows :
      (e : P2trEvent) (g : Aggregator) (c : Bool)
      → Holds
          (λ _ g'. Grows a (amount_total any_block a (e ∷ [])) g.ledger g'.ledger)
          ((if c then insert_pending_event e else record_event e) g)
  unfolding insert_pending_event worth
  stored-Grows e g true =
      Holds-mono (After (create_pending_p2tr_event e g.ledger).1 g.last_block_number) _ _
        (exec-After (create_pending_p2tr_event e) g)
        (λ _ g' h. rw (h.0) (create_pending-Grows a e g.ledger))
  stored-Grows e g false =
      Holds-mono (Records (e ∷ []) g) _ _ (record_event-Records e g)
        (λ _ g' h. rw (h.0.events any_block a, h.0.pending) (omega int_laws))

  -- A message that is handled adds its amount to the worth of its address, once, whether it is
  -- recorded or pending, and changes the worth of no other address.
  pub handle_event-Grows :
      (e : P2trEvent) (g : Aggregator)
      → Holds
          (λ _ g'.
            worth a g'.ledger ≡ worth a g.ledger +ℤ (if e.address == a then e.amount else pos 0))
          (handle_event arrange e g)
  unfolding handle_event amount_total
  handle_event-Grows e g =
      Holds-resume (λ _ g'. Grows a (amount_total any_block a (e ∷ [])) g.ledger g'.ledger) _
        (in_transaction (if e.is_coinbase then insert_pending_event e else record_event e) g) _
        (Holds-in_transaction (λ _ l' _. Grows a (amount_total any_block a (e ∷ [])) g.ledger l')
          (if e.is_coinbase then insert_pending_event e else record_event e) g
          (λ v same _.
            Holds-mono (λ _ g'. Grows a (amount_total any_block a (e ∷ [])) v.ledger g'.ledger)
              (λ _ g'. Grows a (amount_total any_block a (e ∷ [])) g.ledger g'.ledger) _
              (stored-Grows e v e.is_coinbase) (λ _ g' h. rw (← same) h)))
        (λ _ g₁ h₁.
          Holds-mono (λ _ g'. worth a g'.ledger ≡ worth a g₁.ledger)
            (λ _ g'.
              worth a g'.ledger ≡ worth a g.ledger +ℤ (if e.address == a then e.amount else pos 0))
            _ (advance-Grows e.block_number g₁) (λ _ g' h. rw (h, h₁) (omega int_laws)))
