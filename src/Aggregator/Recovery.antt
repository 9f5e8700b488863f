-- ===== src/Aggregator/Recovery.antt =====
-- Without faults, a reorganisation that has events to take back does so and returns.
use mathlib.Core.List.Perm
use btc_idx_service.Prelude.{
  some, [], false, ◌∷◌, ◌≡◌, ◌∙◌, refl, arith, List, ℕ, last, All, is_empty, select, All-select,
  sym, subst, Perm,
}
use btc_idx_service.Ledger.{
  EventRow, decode_all, decode_event, get_p2tr_events_since_block, since, pull_pending_p2tr_events,
}
use btc_idx_service.Types.{P2trEvent, Action, action_try_from}
use btc_idx_service.Aggregator.Worth.{IsArrangement}
use btc_idx_service.Aggregator.Defs.{
  reorg_body, record_events, reorg_all, last_block_of, handle_reorg,
}
use btc_idx_service.Aggregator.State.{Aggregator, exec, in_transaction}
use btc_idx_service.Aggregator.Faults.{IsQuiet}
use btc_idx_service.Prelude.Run.{Returns, Returns-resume, Returns-Holds}
use btc_idx_service.Aggregator.Liveness.{
  exec_quiet, record_events-IsQuiet, pull_pending-IsQuiet, transaction-IsQuiet,
}
use btc_idx_service.Aggregator.Reorg.{Reverted, handle_reorg-Reverted}

-- The action of a recorded event is one that the program writes.
abbrev pub IsReadableEvent : EventRow → Type 0
IsReadableEvent r = (k : Action) × (action_try_from r.action ≡ some k)

-- Readable rows decode to as many events.
decode_events :
    (rs : List EventRow)
    → All IsReadableEvent rs
    → (es : List P2trEvent) × (decode_all decode_event rs ≡ some es) × (is_empty es ≡ is_empty rs)
decode_events [] h = ([], refl, refl)
decode_events (r ∷ rs) h =
    let (es, e, _) = decode_events rs h.1 in
    let (k, f) = h.0 in
    (
      record {
        sequence_id = r.sequence_id;
        block_number = r.block_number;
        txid = r.tx_hash;
        address = r.address;
        amount = r.amount;
        action = k;
        is_coinbase = false;
      }
          ∷ es,
      ground arith,
      refl,
    )

last-some : {A : Type 0} (e : A) (es : List A) → (l : A) × (last (e ∷ es) ≡ some l)
last-some e [] = (e, refl)
last-some e (e' ∷ es) = last-some e' es

not_both : (es : List P2trEvent) → es ≡ [] → is_empty es ≡ false → ⊥
not_both [] e h = ground arith
not_both (x ∷ es) e h = ground arith

module _ (arrange : List P2trEvent → List P2trEvent) (arranged : IsArrangement arrange) where
  last_arranged :
      (es : List P2trEvent) → is_empty es ≡ false → (l : P2trEvent) × (last (arrange es) ≡ some l)
  last_arranged es some_event = go (arrange es) refl
    where
      go : (xs : List P2trEvent) → arrange es ≡ xs → (l : P2trEvent) × (last xs ≡ some l)
      go (a ∷ xs) e = last-some a xs
      go [] e =
          absurd
            (not_both es (sym (Perm.nil-eq (subst (λ xs. Perm xs es) e (arranged es)))) some_event)

  get_events-Returns :
      (n : ℕ) (g : Aggregator)
      → IsQuiet g
      → All IsReadableEvent g.ledger.events
      → is_empty (select (since n) g.ledger.events) ≡ false
      → Returns
          (λ es g'. (is_empty es ≡ false) × IsQuiet g')
          (exec (get_p2tr_events_since_block n) g)
  unfolding get_p2tr_events_since_block
  get_events-Returns n g q readable found =
      let (es, e, same) =
        decode_events (select (since n) g.ledger.events)
          (All-select IsReadableEvent (since n) g.ledger.events readable) in
      rw (exec_quiet (get_p2tr_events_since_block n) g q.sound, e) (same ∙ found, q)

  last_block_of-Returns :
      (es : List P2trEvent) (g : Aggregator)
      → is_empty es ≡ false
      → IsQuiet g
      → Returns (λ _ g'. IsQuiet g') (last_block_of (arrange es) g)
  last_block_of-Returns es g some_event q =
      let (l, at) = last_arranged es some_event in rw (last_block_of, at) q

  reorg_body-Returns :
      (n : ℕ) (g : Aggregator)
      → IsQuiet g
      → All IsReadableEvent g.ledger.events
      → is_empty (select (since n) g.ledger.events) ≡ false
      → Returns (λ _ g'. IsQuiet g') (reorg_body arrange n g)
  unfolding reorg_body
  reorg_body-Returns n g q readable found =
      Returns-resume (λ es g'. (is_empty es ≡ false) × IsQuiet g') _
        (exec (get_p2tr_events_since_block n) g) _ (get_events-Returns n g q readable found)
        (λ es g₁ (some_event, q₁).
          Returns-resume (λ _ g'. IsQuiet g') _ (last_block_of (arrange es) g₁) _
            (last_block_of-Returns es g₁ some_event q₁)
            (λ l g₂ q₂.
              Returns-resume (λ _ g'. IsQuiet g') _ (record_events (reorg_all (arrange es)) g₂) _
                (record_events-IsQuiet (reorg_all (arrange es)) g₂ q₂)
                (λ _ g₃ q₃.
                  Returns-resume (λ _ g'. IsQuiet g') _ (exec (pull_pending_p2tr_events l) g₃) _
                    (pull_pending-IsQuiet l g₃ q₃) (λ _ _ k. k))))

  -- Without faults, with readable rows, and with at least one recorded event of a block from `n` on,
  -- a reorganisation from `n` returns, and has done what `Reverted` says: the events from `n` on
  -- cancel out, those before and the later pending ones are kept, and the balances follow.
  pub handle_reorg-Returns :
      (n : ℕ) (g : Aggregator)
      → IsQuiet g
      → All IsReadableEvent g.ledger.events
      → is_empty (select (since n) g.ledger.events) ≡ false
      → Returns
          (λ _ g'. Reverted n g'.last_block_number g.ledger g'.ledger)
          (handle_reorg arrange n g)
  unfolding handle_reorg
  handle_reorg-Returns n g q readable found =
      Returns-Holds (λ _ g1. Reverted n g1.last_block_number g.ledger g1.ledger)
        (handle_reorg arrange n g)
        (Returns-resume (λ _ g'. IsQuiet g') (λ _ _. Unit {0})
          (in_transaction (reorg_body arrange n) g) _
          (transaction-IsQuiet (reorg_body arrange n) g q (reorg_body-Returns n g q readable found))
          (λ _ _ _. tt))
        (handle_reorg-Reverted arrange arranged n g)
