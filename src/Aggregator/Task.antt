-- ===== src/Aggregator/Task.antt =====
-- `Aggregator::start` with the signal to shut down, and the task around it.
use mathlib.Core.List.Perm
use btc_idx_service.Aggregator.Book.{Book, Refines, post_all, start-Refines}
use btc_idx_service.Aggregator.Worth.{IsArrangement}
use btc_idx_service.Prelude.{[], ◌∷◌, ◌≡◌, refl, List, All, ◌∙◌, map, subst, sym, ap}
use btc_idx_service.Prelude.Run.{◌>>◌, or_panic, pure, Returns, Returns-ok, Returns-resume}
use btc_idx_service.Types.{P2trEvent, AggregatorMsg, event, reorg_from}
use btc_idx_service.Aggregator.Defs.{cleanup, start, handle_message, handle_event}
use btc_idx_service.Aggregator.State.{M, Aggregator}
use btc_idx_service.Aggregator.Faults.{IsQuiet}
use btc_idx_service.Aggregator.Liveness.{handle_event-IsQuiet}

-- What `select!` takes next: a message, or the signal. The list ends where the channel is closed.
pub data Arrival : Type 0 where
  message : AggregatorMsg → Arrival
  notified : Arrival

abbrev pub messages_of : List Arrival → List AggregatorMsg
messages_of [] = []
messages_of (message m ∷ rest) = m ∷ messages_of rest
messages_of (notified ∷ rest) = messages_of rest

module _ (arrange : List P2trEvent → List P2trEvent) where
  -- After the signal, `cleanup` takes what is left until the channel is closed.
  unfoldable pub serve : List Arrival → M (Unit {0})
  serve [] = pure tt
  serve (message m ∷ rest) = do handle_message arrange m; serve rest
  serve (notified ∷ rest) = cleanup arrange (messages_of rest)

  -- `run`: an error of the loop is a panic of the task.
  unfoldable pub run : List Arrival → M (Unit {0})
  run arrivals g = or_panic (serve arrivals g)

abbrev pub IsEvent : AggregatorMsg → Type 0
IsEvent (event e) = Unit
IsEvent (reorg_from n) = ⊥

module _ (arrange : List P2trEvent → List P2trEvent) where
  cleanup-eq-start :
      (ms : List AggregatorMsg) (g : Aggregator)
      → All IsEvent ms
      → IsQuiet g
      → cleanup arrange ms g ≡ start arrange ms g
  unfolding cleanup start handle_message
  cleanup-eq-start [] g h q = refl
  cleanup-eq-start (event e ∷ ms) g h q =
      let (_, g', returned, q') =
        Returns-ok (λ _ v. IsQuiet v) (handle_event arrange e g)
          (handle_event-IsQuiet arrange e g q) in
      rw returned (cleanup-eq-start ms g' h.1 q')
  cleanup-eq-start (reorg_from n ∷ ms) g h q = absurd h.0

  serve-eq-start :
      (arrivals : List Arrival) (g : Aggregator)
      → All IsEvent (messages_of arrivals)
      → IsQuiet g
      → serve arrange arrivals g ≡ start arrange (messages_of arrivals) g
  unfolding serve start handle_message
  serve-eq-start [] g h q = refl
  serve-eq-start (message (event e) ∷ rest) g h q =
      let (_, g', returned, q') =
        Returns-ok (λ _ v. IsQuiet v) (handle_event arrange e g)
          (handle_event-IsQuiet arrange e g q) in
      rw returned (serve-eq-start rest g' h.1 q')
  serve-eq-start (message (reorg_from n) ∷ rest) g h q = absurd h.0
  serve-eq-start (notified ∷ rest) g h q = cleanup-eq-start (messages_of rest) g h q

  start_of_events-Returns :
      (ms : List AggregatorMsg) (g : Aggregator)
      → All IsEvent ms
      → IsQuiet g
      → Returns (λ _ g'. IsQuiet g') (start arrange ms g)
  unfolding start handle_message
  start_of_events-Returns [] g h q = q
  start_of_events-Returns (event e ∷ ms) g h q =
      Returns-resume (λ _ g'. IsQuiet g') _ (handle_event arrange e g) _
        (handle_event-IsQuiet arrange e g q) (λ _ g' q'. start_of_events-Returns ms g' h.1 q')
  start_of_events-Returns (reorg_from n ∷ ms) g h q = absurd h.0

  -- Without faults, with readable pending rows and no reorganisation under way, it does not matter
  -- when the signal to shut down comes, between which messages, or whether it comes: the task handles
  -- every message, does not panic, and ends as the loop over all messages does.
  pub run-eq-start :
      (arrivals : List Arrival) (g : Aggregator)
      → All IsEvent (messages_of arrivals)
      → IsQuiet g
      → run arrange arrivals g ≡ start arrange (messages_of arrivals) g
  unfolding run
  run-eq-start arrivals g h q =
      let (_, g', returned, _) =
        Returns-ok (λ _ v. IsQuiet v) (start arrange (messages_of arrivals) g)
          (start_of_events-Returns (messages_of arrivals) g h q) in
      rw (serve-eq-start arrivals g h q, returned) refl

All-events : (es : List P2trEvent) → All IsEvent (map event es)
All-events [] = tt
All-events (e ∷ es) = (tt, All-events es)

module _ (arrange : List P2trEvent → List P2trEvent) (arranged : IsArrangement arrange) where
  -- If the ledger stands for a book of amounts per address, then, without faults, with readable pending
  -- rows and with only events among the messages, the task returns, so it does not panic, and its
  -- ledger stands for the book with every event posted, and it ends as the loop over all messages
  -- does: whenever the signal to shut down comes, between which messages, and whether it comes.
  pub run-Refines :
      (arrivals : List Arrival) (es : List P2trEvent) (g : Aggregator) (b : Book)
      → messages_of arrivals ≡ map event es
      → IsQuiet g
      → Refines g b
      → Returns (λ _ g'. Refines g' (post_all es b)) (run arrange arrivals g)
        × (run arrange arrivals g ≡ start arrange (map event es) g)
  run-Refines arrivals es g b same q h =
      let quiet = subst (All IsEvent) (sym same) (All-events es) in
      let as_start = run-eq-start arrange arrivals g quiet q ∙ ap (λ ms. start arrange ms g) same in
      (
        subst (Returns (λ _ g'. Refines g' (post_all es b))) (sym as_start)
            (start-Refines arrange arranged es es g b (Perm.refl es) q h),
        as_start,
      )
