-- ===== src/System/Interleaving.antt =====
-- The processor and the aggregator at work at the same time: blocks are committed and messages are
-- taken from the channel in any order.
use btc_idx_service.Prelude.{
  [], ◌∷◌, ◌≡◌, List, ℕ, if◌then◌else◌, All, All-append, ◌==◌, true, false, refl, Bool,
}
use btc_idx_service.Prelude.Run.{ok, err, Holds-ok}
use btc_idx_service.Types.{Address, AggregatorMsg, P2trEvent, event, BlockInfo, reorg_from}
use btc_idx_service.Processor.{
  Externals, World, IsWalk, process, ProcessorError, process_block, sqlx,
}
use btc_idx_service.Aggregator.Task.{IsEvent}
use btc_idx_service.Aggregator.Worth.{worth, IsArrangement, handle_event-Grows}
use btc_idx_service.Aggregator.{Aggregator, handle_message, sqlx}
use btc_idx_service.Prelude.Int.{◌+ℤ◌, pos, ℤ, int_laws}
use btc_idx_service.Processor.Messages.{IsEventOf, Sends, process-Sends}
use btc_idx_service.Processor.Balances.{event_sum, event_amount}
use btc_idx_service.Chain.Totals.{unspent_total}
use btc_idx_service.Processor.Conservation.{Conserves, process-Conserves, process_block-Conserves}
use btc_idx_service.Processor.Rules.{Commits-Holds}
use btc_idx_service.Sql.{io}

-- The unhandled messages are those of `world.sent`.
pub record Service : Type 0 where
  pub world : World
  pub aggregator : Aggregator

module _ (x : Externals) (arrange : List P2trEvent → List P2trEvent) where
  -- A block is committed, a block fails before it has sent a message, or the aggregator handles the
  -- message at the front of the channel.
  pub data Step (s : Service) : Service → Type 0 where
    commits :
        (block : BlockInfo) (w : World)
        → process x block s.world ≡ (ok tt, w)
        → Step s (record s { world = w })
    fails :
        (block : BlockInfo) (e : ProcessorError) (w : World)
        → process x block s.world ≡ (err e, w)
        → w.sent ≡ s.world.sent
        → Step s (record s { world = w })
    handles :
        (m : AggregatorMsg) (ms : List AggregatorMsg) (g : Aggregator)
        → s.world.sent ≡ m ∷ ms
        → handle_message arrange m s.aggregator ≡ (ok tt, g)
        → Step s (record { world = record s.world { sent = ms }; aggregator = g })

  pub data Reach (s : Service) : Service → Type 0 where
    here : Reach s s
    next : {t u : Service} → Reach s t → Step t u → Reach s u

-- What the ledger holds of an address and what the channel carries to it, is its unspent total.
abbrev pub Agrees : Address → Service → Type 0
Agrees a s =
    worth a s.aggregator.ledger +ℤ event_sum a s.world.sent ≡ unspent_total a s.world.chain.utxos

-- Nothing but events is under way, and all amounts are accounted for.
pub record IsBooked (a : Address) (s : Service) : Type 0 where
  pub events : All IsEvent s.world.sent
  pub agrees : Agrees a s

IsEventOf-IsEvent : (n : ℕ) (ms : List AggregatorMsg) → All (IsEventOf n) ms → All IsEvent ms
IsEventOf-IsEvent n [] h = tt
IsEventOf-IsEvent n (event e ∷ ms) h = (tt, IsEventOf-IsEvent n ms h.1)
IsEventOf-IsEvent n (reorg_from m ∷ ms) h = absurd h.0

rebook : (v e e' u u' : ℤ) → v +ℤ e ≡ u → u' +ℤ e ≡ u +ℤ e' → v +ℤ e' ≡ u'
rebook v e e' u u' h k = grind int_laws

taken : (v v' d e u : ℤ) → v' ≡ v +ℤ d → v +ℤ (d +ℤ e) ≡ u → v' +ℤ e ≡ u
taken v v' d e u h k = grind int_laws

module _ (x : Externals) (walked : IsWalk x) (arrange : List P2trEvent → List P2trEvent)
    (arranged : IsArrangement arrange) (a : Address) where
  commits-IsBooked :
      (block : BlockInfo) (s : Service) (w : World)
      → process x block s.world ≡ (ok tt, w)
      → IsBooked a s
      → IsBooked a (record s { world = w })
  commits-IsBooked block s w e b =
      let (ms, sent, of_block) =
        Holds-ok (Sends block.header.height s.world) _ tt w (process-Sends x block s.world) e in
      let conserved =
        Holds-ok (λ _ w'. Conserves a s.world w'.chain w'.sent) _ tt w
          (Commits-Holds s.world (λ _ w'. Conserves a s.world w'.chain w'.sent) _
            (process-Conserves x walked a block s.world))
          e in
      record {
        events = rw sent (
            All-append IsEvent s.world.sent ms b.events
              (IsEventOf-IsEvent block.header.height ms of_block));
        agrees =
            rebook (worth a s.aggregator.ledger) (event_sum a s.world.sent) (event_sum a w.sent) _ _
              b.agrees conserved;
      }

  Step-IsBooked : (s t : Service) → Step x arrange s t → IsBooked a s → IsBooked a t
  unfolding handle_message event_sum event_amount
  Step-IsBooked s t (commits block w e) b = commits-IsBooked block s w e b
  Step-IsBooked s t (fails block e w f same) b = record {
    events = rw same b.events;
    agrees = rw (same, (rw (f) at (process-Conserves x walked a block s.world))) b.agrees;
  }
  Step-IsBooked s t (handles (event e) ms g front h) b = record {
    events = (rw front at (b.events)).1;
    agrees =
        taken (worth a s.aggregator.ledger) (worth a g.ledger) _ (event_sum a ms) _
          (Holds-ok
            (λ _ g'.
              worth a g'.ledger
              ≡ worth a s.aggregator.ledger +ℤ (if e.address == a then e.amount else pos 0))
            _ tt g (handle_event-Grows arrange arranged a e s.aggregator) h)
          (rw front at (b.agrees));
  }
  Step-IsBooked s t (handles (reorg_from n) ms g front h) b = absurd (rw front at (b.events)).0

  -- However commits, early failures and the handling of messages interleave, without forks: if for an
  -- address the ledger and the channel together account for its unspent total at the start, they do
  -- at every state that is reached.
  pub Reach-IsBooked : (s t : Service) → Reach x arrange s t → IsBooked a s → IsBooked a t
  Reach-IsBooked s t here b = b
  Reach-IsBooked s t (next {t = u} r step) b = Step-IsBooked u t step (Reach-IsBooked s u r b)

  -- What a transaction whose commit is lost leaves of a body that returned.
  lost_commit :
      (block : BlockInfo) (w v : World) (fs rest : List Bool)
      → w.faults ≡ false ∷ fs
      → process_block x block (record w { faults = fs }) ≡ (ok tt, v)
      → v.faults ≡ true ∷ rest
      → process x block w ≡ (err (sqlx io), record v { chain = w.chain; faults = rest })
  unfolding process
  lost_commit block w v fs rest begins body lost = rw (begins, body, lost) refl

  -- A block whose commit is lost, after it has sent its messages: the processing fails and the tables
  -- are as before, but the messages stay. Where ledger and channel accounted for the unspent total of
  -- an address, they now account for that of the tables with this block, which the database does not
  -- have.
  pub failed_block_is_counted :
      (block : BlockInfo) (s : Service) (v : World) (fs rest : List Bool)
      → s.world.faults ≡ false ∷ fs
      → process_block x block (record s.world { faults = fs }) ≡ (ok tt, v)
      → v.faults ≡ true ∷ rest
      → Agrees a s
      → (w : World) × (process x block s.world ≡ (err (sqlx io), w))
        × (w.chain ≡ s.world.chain)
        × (worth a s.aggregator.ledger +ℤ event_sum a w.sent ≡ unspent_total a v.chain.utxos)
  failed_block_is_counted block s v fs rest begins body lost agrees =
      let conserved =
        Holds-ok (λ _ w'. Conserves a (record s.world { faults = fs }) w'.chain w'.sent)
          (process_block x block (record s.world { faults = fs })) tt v
          (process_block-Conserves x walked a block (record s.world { faults = fs })) body in
      (
        record v { chain = s.world.chain; faults = rest },
        lost_commit block s.world v fs rest begins body lost,
        refl,
        ahead (worth a s.aggregator.ledger) (event_sum a s.world.sent) _ _ _ agrees conserved,
      )
    where
      ahead : (g e e' u u' : ℤ) → g +ℤ e ≡ u → u' +ℤ e ≡ u +ℤ e' → g +ℤ e' ≡ u'
      ahead g e e' u u' h k = grind int_laws
