-- ===== src/System/Pipeline.antt =====
-- A block that the processor commits and the aggregator takes in changes what the ledger holds of an
-- address as it changes the unspent outputs of that address.
use btc_idx_service.Prelude.{[], ◌∷◌, ◌≡◌, ◌==◌, List, ℕ, if◌then◌else◌, All, refl}
use btc_idx_service.Prelude.Run.{
  ok, err, panic, Holds, Outcome, Holds-resume, Holds-mono, Returns, Returns-Holds, Returns-mono,
}
use btc_idx_service.Prelude.Int.{pos, ℤ, ◌+ℤ◌, int_laws}
use btc_idx_service.Types.{P2trEvent, Address, BlockInfo, AggregatorMsg, reorg_from, event}
use btc_idx_service.Processor.{Externals, World, IsWalk, process, ProcessorError}
use btc_idx_service.Aggregator.Worth.{IsArrangement, worth, handle_event-Grows}
use btc_idx_service.Aggregator.{start, handle_message, Aggregator, handle_event}
use btc_idx_service.Processor.Balances.{event_sum, event_amount}
use btc_idx_service.Processor.Messages.{IsEventOf, Sends, process-Sends}
use btc_idx_service.Chain.Totals.{unspent_total}
use btc_idx_service.Processor.Conservation.{Conserves, process-Conserves}
use btc_idx_service.Processor.Rules.{Commits-Holds}
use btc_idx_service.Aggregator.Faults.{IsQuiet}
use btc_idx_service.Aggregator.Liveness.{start-Returns}

module _ (arrange : List P2trEvent → List P2trEvent) (arranged : IsArrangement arrange)
    (a : Address) where
  -- The events of a block, handled one by one.
  start-Grows :
      (n : ℕ) (ms : List AggregatorMsg) (g : Aggregator)
      → All (IsEventOf n) ms
      → Holds (λ _ g'. worth a g'.ledger ≡ worth a g.ledger +ℤ event_sum a ms) (start arrange ms g)
  unfolding start event_sum handle_message event_amount
  start-Grows n [] g h = omega int_laws
  start-Grows n (reorg_from m ∷ ms) g h = absurd h.0
  start-Grows n (event e ∷ ms) g h =
      Holds-resume
        (λ _ g₁.
          worth a g₁.ledger ≡ worth a g.ledger +ℤ (if e.address == a then e.amount else pos 0))
        _ (handle_event arrange e g) _ (handle_event-Grows arrange arranged a e g)
        (λ _ g₁ h₁.
          Holds-mono (λ _ g'. worth a g'.ledger ≡ worth a g₁.ledger +ℤ event_sum a ms)
            (λ _ g'.
              worth a g'.ledger
              ≡ worth a g.ledger
                +ℤ ((if e.address == a then e.amount else pos 0) +ℤ event_sum a ms))
            _ (start-Grows n ms g₁ h.1) (λ _ g' h'. rw (h', h₁) (omega int_laws)))

regroup : (u u' s s' v t : ℤ) → u' +ℤ s ≡ u +ℤ s' → s ≡ pos 0 → t ≡ v +ℤ s' → t +ℤ u ≡ v +ℤ u'
regroup u u' s s' v t h e f = grind int_laws

no_messages : (a : Address) → event_sum a [] ≡ pos 0
unfolding event_sum
no_messages a = refl

-- Let the processor commit a block with an empty channel, and the aggregator then handle all that it
-- was sent. For each address, what the ledger holds of it, recorded or pending, moves by as much as
-- the unspent total of the address in the utxo table. The order in which the program walks a map and
-- the order in which the database returns rows do not matter, nor do faults, as long as both return.
pub block_reaches_ledger :
    (x : Externals) (arrange : List P2trEvent → List P2trEvent) (a : Address) (block : BlockInfo)
    (w : World) (g : Aggregator)
    → IsWalk x
    → IsArrangement arrange
    → w.sent ≡ []
    → Holds
        (λ _ w'.
          Holds
            (λ _ g'.
              worth a g'.ledger +ℤ unspent_total a w.chain.utxos
              ≡ worth a g.ledger +ℤ unspent_total a w'.chain.utxos)
            (start arrange w'.sent g))
        (process x block w)
block_reaches_ledger x arrange a block w g walked arranged empty =
    both (process x block w) (process-Sends x block w) (
      Commits-Holds w (λ _ w'. Conserves a w w'.chain w'.sent) (process x block w)
        (process-Conserves x walked a block w))
  where
    both :
        (r : Outcome ProcessorError (Unit {0}) × World)
        → Holds (Sends block.header.height w) r
        → Holds (λ _ w'. Conserves a w w'.chain w'.sent) r
        → Holds
            (λ _ w'.
              Holds
                (λ _ g'.
                  worth a g'.ledger +ℤ unspent_total a w.chain.utxos
                  ≡ worth a g.ledger +ℤ unspent_total a w'.chain.utxos)
                (start arrange w'.sent g))
            r
    both (err e, w') s c = tt
    both (panic, w') s c = tt
    both (ok t, w') (ms, e, h) c =
        let only : w'.sent ≡ ms = rw (e, empty) in
        rw only (
          Holds-mono (λ _ g'. worth a g'.ledger ≡ worth a g.ledger +ℤ event_sum a ms) _ _
            (start-Grows arrange arranged a block.header.height ms g h)
            (λ _ g' grown.
              regroup (unspent_total a w.chain.utxos) (unspent_total a w'.chain.utxos)
                (event_sum a w.sent) (event_sum a ms) (worth a g.ledger) (worth a g'.ledger)
                (rw only at c) (rw empty (no_messages a)) grown))

-- A block that the processor commits with an empty channel, and then an aggregator without faults and
-- with readable pending rows: it handles all messages of the block and returns, and for each address
-- the worth of its ledger has moved by as much as the unspent total of the address.
pub committed_block_is_handled :
    (x : Externals) (arrange : List P2trEvent → List P2trEvent) (a : Address) (block : BlockInfo)
    (w : World) (g : Aggregator)
    → IsWalk x
    → IsArrangement arrange
    → w.sent ≡ []
    → IsQuiet g
    → Holds
        (λ _ w'.
          Returns
            (λ _ g'.
              worth a g'.ledger +ℤ unspent_total a w.chain.utxos
              ≡ worth a g.ledger +ℤ unspent_total a w'.chain.utxos)
            (start arrange w'.sent g))
        (process x block w)
committed_block_is_handled x arrange a block w g walked arranged empty quiet =
    both (process x block w) (process-Sends x block w)
      (block_reaches_ledger x arrange a block w g walked arranged empty)
  where
    Reaches : World → Aggregator → Type 0
    Reaches w' g' =
        worth a g'.ledger +ℤ unspent_total a w.chain.utxos
        ≡ worth a g.ledger +ℤ unspent_total a w'.chain.utxos

    both :
        (r : Outcome ProcessorError (Unit {0}) × World)
        → Holds (Sends block.header.height w) r
        → Holds (λ _ w'. Holds (λ _ g'. Reaches w' g') (start arrange w'.sent g)) r
        → Holds (λ _ w'. Returns (λ _ g'. Reaches w' g') (start arrange w'.sent g)) r
    both (err e, w') s c = tt
    both (panic, w') s c = tt
    both (ok t, w') (ms, e, h) c =
        let only : w'.sent ≡ ms = rw (e, empty) in
        Returns-Holds (λ _ g'. Reaches w' g') (start arrange w'.sent g)
          (Returns-mono (λ _ g'. IsQuiet g') (λ _ _. Unit {0}) _
            (start-Returns arrange block.header.height w'.sent g (rw only h) quiet) (λ _ _ _. tt))
          c
