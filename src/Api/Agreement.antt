-- ===== src/Api/Agreement.antt =====
-- The balance and the unspent outputs that the web API shows of one service.
use btc_idx_service.System.Interleaving.{
  Service, Step, Reach, here, next, commits, fails, handles, IsBooked, Reach-IsBooked,
}
use btc_idx_service.Api.Utxos.{p2tr_balance-eq-utxos, tables, satoshis}
use btc_idx_service.Api.Reads.{p2tr_balance, p2tr_utxo}
use btc_idx_service.Aggregator.Balanced.{IsBalanced, start-cleanup-IsBalanced}
use btc_idx_service.Aggregator
use btc_idx_service.Aggregator.{handle_message, Aggregator}
use btc_idx_service.Prelude.{[], ◌∷◌, ◌≡◌, ◌⊎◌, List, refl, ℕ, Option, some}
use btc_idx_service.Prelude.Run.{ok, err, Returns}
use btc_idx_service.Prelude.Int.{pos, int_laws}
use btc_idx_service.Aggregator.Worth.{worth, IsArrangement}
use btc_idx_service.Processor.{Externals, IsWalk}
use btc_idx_service.Types.{P2trEvent, Address}
use btc_idx_service.Ledger.Totals.{
  balance_at, statistic_total, event_total, pending_total, any_block,
}
use btc_idx_service.Processor.Balances.{event_sum}
use btc_idx_service.Chain.Totals.{unspent_total}
use btc_idx_service.Api.Defs.{missing}

-- A service on tables without rows, with nothing under way.
pub record IsNew (s : Service) : Type 0 where
  pub utxos : s.world.chain.utxos ≡ []
  pub sent : s.world.sent ≡ []
  pub events : s.aggregator.ledger.events ≡ []
  pub pending : s.aggregator.ledger.pending ≡ []
  pub balances : s.aggregator.ledger.balances ≡ []
  pub statistics : s.aggregator.ledger.statistics ≡ []

IsNew-IsBooked : (a : Address) (s : Service) → IsNew s → IsBooked a s
unfolding worth event_total pending_total event_sum unspent_total
IsNew-IsBooked a s n = record {
  events = rw (n.sent) tt;
  agrees = rw (n.events, n.pending, n.sent, n.utxos) (omega int_laws);
}

IsNew-IsBalanced : (s : Service) → IsNew s → IsBalanced s.aggregator.ledger
unfolding balance_at statistic_total event_total
IsNew-IsBalanced s n = record {
  total = λ a. rw (n.balances, n.events) refl;
  hourly = λ a. rw (n.statistics, n.events) refl;
}

module _ (x : Externals) (arrange : List P2trEvent → List P2trEvent) where
  Step-IsBalanced :
      (s t : Service)
      → Step x arrange s t
      → IsBalanced s.aggregator.ledger
      → IsBalanced t.aggregator.ledger
  unfolding Aggregator.start
  Step-IsBalanced s _ (commits block w e) b = b
  Step-IsBalanced s _ (fails block e w f same) b = b
  Step-IsBalanced s _ (handles m ms g front h) b =
      rw h at ((start-cleanup-IsBalanced arrange (m ∷ []) [] s.aggregator b).0)

  Reach-IsBalanced :
      (s t : Service)
      → Reach x arrange s t
      → IsBalanced s.aggregator.ledger
      → IsBalanced t.aggregator.ledger
  Reach-IsBalanced s _ here b = b
  Reach-IsBalanced s t (next {t = u} r step) b = Step-IsBalanced u t step (Reach-IsBalanced s u r b)

module _ (x : Externals) (walked : IsWalk x) (arrange : List P2trEvent → List P2trEvent)
    (arranged : IsArrangement arrange) (parse : ℕ → Option Address) where
  -- A service begins with empty tables, and blocks that are committed, blocks that fail before they
  -- have sent a message, and the handling of messages follow in any order, without forks. When the
  -- channel is empty and the pending amounts of an address that parses add up to zero, the balance that
  -- the API shows of the address is the sum of the satoshis of the unspent outputs that it shows, or it
  -- answers that there is no balance, and then that sum is zero.
  pub p2tr_balance-agrees :
      (text : ℕ) (a : Address) (s t : Service)
      → parse text ≡ some a
      → IsNew s
      → Reach x arrange s t
      → t.world.sent ≡ []
      → pending_total any_block a t.aggregator.ledger.pending ≡ pos 0
      → Returns
          (λ us _.
            ((p2tr_balance parse text (tables t)).0 ≡ ok (satoshis us))
            ⊎ (((p2tr_balance parse text (tables t)).0 ≡ err missing) × (satoshis us ≡ pos 0)))
          (p2tr_utxo parse text (tables t))
  p2tr_balance-agrees text a s t parses new r empty none_waits =
      p2tr_balance-eq-utxos parse text a t parses
        (Reach-IsBooked x walked arrange arranged a s t r (IsNew-IsBooked a s new)) empty none_waits
        (Reach-IsBalanced x arrange s t r (IsNew-IsBalanced s new))
