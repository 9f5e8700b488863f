-- ===== src/Aggregator/Reorg.antt =====
-- `handle_reorg`: what a message about a fork does to the ledger.
use mathlib.Core.List.Perm
use btc_idx_service.Prelude.{
  none, some, [], ◌∷◌, ◌≡◌, ◌&&◌, refl, arith, List, Bool, Option, ℕ, not, leb, select,
}
use btc_idx_service.Prelude.Int.{pos, negsuc, ◌+ℤ◌, ◌*ℤ◌, ℤ, int_laws}
use btc_idx_service.Ledger.Totals.{
  amount_total, event_total, balance_at, event_total-decode, amount_total-perm, any_block,
}
use btc_idx_service.Ledger.{
  Ledger, get_p2tr_events_since_block, decode_all, decode_event, due, since, fetched, EventRow,
  pull_pending_p2tr_events,
}
use btc_idx_service.Types.{P2trEvent, Address, reorg_event}
use btc_idx_service.Prelude.Run.{Holds, panic, Holds-resume, Holds-mono}
use btc_idx_service.Aggregator.Worth.{IsArrangement, pull_pending_lem}
use btc_idx_service.Aggregator.Defs.{
  reorg_all, handle_reorg, reorg_body, last_block_of, record_events,
}
use btc_idx_service.Sql.{delete}
use btc_idx_service.Aggregator.Recording.{Recorded, Records, record_events-Records}
use btc_idx_service.Aggregator.State.{Aggregator, exec, in_transaction}
use btc_idx_service.Aggregator.Rules.{Holds-exec, Holds-in_transaction}
use btc_idx_service.Aggregator.Balanced.{last_block_of_lem}

cancel : (v : ℤ) → v *ℤ negsuc 0 +ℤ v ≡ pos 0
unfolding ◌+ℤ◌ ◌*ℤ◌
cancel v = ground arith

add_back : (t u v : ℤ) → u +ℤ v ≡ pos 0 → t +ℤ u +ℤ v ≡ t
add_back t u v h = grind int_laws

zero_of_add : (t u : ℤ) → t +ℤ u ≡ u → t ≡ pos 0
zero_of_add t u h = grind int_laws

of_add_zero : (t u : ℤ) → t +ℤ pos 0 ≡ u → t ≡ u
of_add_zero t u h = grind int_laws

amount_total-reorg_all :
    (p : ℕ → Bool) (a : Address) (es : List P2trEvent)
    → amount_total p a (reorg_all es) +ℤ amount_total p a es ≡ pos 0
unfolding amount_total reorg_event
amount_total-reorg_all p a [] = omega int_laws
amount_total-reorg_all p a (e ∷ es) =
    grind (int_laws, cancel e.amount, amount_total-reorg_all p a es)

get_events_lem :
    (n : ℕ) (l : Ledger)
    → Holds
        (λ es l'. (decode_all decode_event (select (since n) l.events) ≡ some es) × (l' ≡ l))
        (get_p2tr_events_since_block n l)
unfolding get_p2tr_events_since_block
get_events_lem n l = go (decode_all decode_event (select (since n) l.events)) refl
  where
    go :
        (o : Option (List P2trEvent))
        → decode_all decode_event (select (since n) l.events) ≡ o
        → Holds
            (λ es l'. (decode_all decode_event (select (since n) l.events) ≡ some es) × (l' ≡ l))
            (fetched o l)
    go none e = tt
    go (some es) e = (e, refl)

-- The blocks that a reorganisation from `n` keeps.
abbrev pub before : ℕ → ℕ → Bool
before n b = not (leb n b)

-- What the tables hold after a reorganisation from `n`.
pub record Reverted (n last : ℕ) (l l' : Ledger) : Type 0 where
  -- The recorded events of the blocks from `n` on cancel out.
  pub cancelled : (a : Address) → event_total (λ b. leb n b) a l'.events ≡ pos 0
  -- Those of earlier blocks are as before.
  pub kept : (a : Address) → event_total (before n) a l'.events ≡ event_total (before n) a l.events
  -- Each balance has lost what the events from `n` on had added.
  pub balances :
      (a : Address)
      → balance_at a l'.balances +ℤ event_total (λ b. leb n b) a l.events ≡ balance_at a l.balances
  -- No pending event up to the block `last` is left, and all later ones are.
  pub pending : l'.pending ≡ delete (due last) l.pending

module _ (arrange : List P2trEvent → List P2trEvent) (arranged : IsArrangement arrange) where
  -- The totals after recording the reversed events.
  reversed_lem :
      (n : ℕ) (es : List P2trEvent) (l l' : Ledger)
      → decode_all decode_event (select (since n) l.events) ≡ some es
      → Recorded (reorg_all (arrange es)) l l'
      → (p : ℕ → Bool) (a : Address)
      → event_total p a l'.events +ℤ event_total (λ b. p b && leb n b) a l.events
        ≡ event_total p a l.events
  reversed_lem n es l l' d r p a =
      rw
        (
          ← event_total-decode p (λ b. leb n b) a l.events es d,
          ← amount_total-perm p a (arranged es),
          r.events p a,
        )
        (add_back (event_total p a l.events) _ _ (amount_total-reorg_all p a (arrange es)))

  cancelled_lem :
      (n : ℕ) (a : Address) (l : List EventRow)
      → event_total (λ b. leb n b && leb n b) a l ≡ event_total (λ b. leb n b) a l
  unfolding event_total
  cancelled_lem n a [] = refl
  cancelled_lem n a (r ∷ l) = ground (arith, cancelled_lem n a l)

  kept_lem :
      (n : ℕ) (a : Address) (l : List EventRow)
      → event_total (λ b. before n b && leb n b) a l ≡ pos 0
  unfolding event_total
  kept_lem n a [] = refl
  kept_lem n a (r ∷ l) = grind (int_laws, kept_lem n a l)

  -- Reverted, once the pending events are pulled.
  Reverted_lem :
      (n last : ℕ) (es : List P2trEvent) (l l' l'' : Ledger)
      → decode_all decode_event (select (since n) l.events) ≡ some es
      → Recorded (reorg_all (arrange es)) l l'
      → l'' ≡ record l' { pending = delete (due last) l'.pending }
      → Reverted n last l l''
  Reverted_lem n last es l l' l'' d r e = record {
    cancelled = λ a. rw e (
        zero_of_add _ _
          (rw (cancelled_lem n a l.events) at (reversed_lem n es l l' d r (λ b. leb n b) a)));
    kept = λ a.
        rw e (
          of_add_zero _ _
            (rw (kept_lem n a l.events) at (reversed_lem n es l l' d r (before n) a)));
    balances = λ a.
        rw
          (
            e,
            r.balances a,
            ← event_total-decode any_block (λ b. leb n b) a l.events es d,
            ← amount_total-perm any_block a (arranged es),
          )
          (add_back (balance_at a l.balances) _ _
            (amount_total-reorg_all any_block a (arrange es)));
    pending = rw (e, r.pending) refl;
  }

  reorg_body-Reverted :
      (n : ℕ) (g : Aggregator)
      → Holds (λ last g'. Reverted n last g.ledger g'.ledger) (reorg_body arrange n g)
  unfolding reorg_body
  reorg_body-Reverted n g =
      Holds-resume
        (λ es g₁.
          (decode_all decode_event (select (since n) g.ledger.events) ≡ some es)
          × (g₁.ledger ≡ g.ledger))
        _ (exec (get_p2tr_events_since_block n) g) _
        (Holds-exec _ _ (get_p2tr_events_since_block n) g (get_events_lem n g.ledger)
          (λ es g₁ h _. h))
        (λ es g₁ h₁.
          Holds-resume (λ _ g'. g' ≡ g₁) _ (last_block_of (arrange es) g₁) _
            (last_block_of_lem (arrange es) g₁)
            (λ last v same.
              Holds-resume (Records (reorg_all (arrange es)) v) _
                (record_events (reorg_all (arrange es)) v) _
                (record_events-Records (reorg_all (arrange es)) v)
                (λ _ g₂ h₂.
                  Holds-resume (λ _ g'. Reverted n last g.ledger g'.ledger) _
                    (exec (pull_pending_p2tr_events last) g₂) _
                    (Holds-exec _ _ (pull_pending_p2tr_events last) g₂
                      (pull_pending_lem last g₂.ledger)
                      (λ _ g₃ h₃ _.
                        Reverted_lem n last es g.ledger g₂.ledger g₃.ledger h₁.0
                          (rw (same, h₁.1) at h₂.0) h₃.1))
                    (λ _ g₃ h₃. h₃))))

  -- A reorganisation from block `n` that returns, whatever the order of the rows, leaves for each
  -- address recorded events from `n` on that cancel out, the events of earlier blocks as they were,
  -- and a balance that has lost what the events from `n` on had added. Exactly the pending events up
  -- to the new value of `last_block_number` are dropped.
  pub handle_reorg-Reverted :
      (n : ℕ) (g : Aggregator)
      → Holds
          (λ _ g'. Reverted n g'.last_block_number g.ledger g'.ledger)
          (handle_reorg arrange n g)
  unfolding handle_reorg
  handle_reorg-Reverted n g =
      Holds-resume (λ last g'. Reverted n last g.ledger g'.ledger) _
        (in_transaction (reorg_body arrange n) g) _
        (Holds-in_transaction (λ last l _. Reverted n last g.ledger l) (reorg_body arrange n) g
          (λ v same _.
            Holds-mono (λ last g'. Reverted n last v.ledger g'.ledger)
              (λ last g'. Reverted n last g.ledger g'.ledger) _ (reorg_body-Reverted n v)
              (λ last g' h. rw (← same) h)))
        (λ last g' h. h)

  -- Where no recorded event belongs to a block from `n` on, and the connection does not fail, a
  -- reorganisation from `n` panics.
  pub handle_reorg_panics :
      (n : ℕ) (g : Aggregator)
      → g.faults ≡ []
      → select (since n) g.ledger.events ≡ []
      → (handle_reorg arrange n g).0 ≡ panic
  unfolding handle_reorg reorg_body get_p2tr_events_since_block
  handle_reorg_panics n g f h = let e = Perm.eq-nil (arranged []) in ground arith
