-- ===== src/System/Lasting.antt =====
-- What lasts while the service runs.
use btc_idx_service.System.Running.{
  Running, Step, Runs, site, with_site, asked, commanded, harvested, cut_short, handled, signalled,
  turned, cleaned, idle, next,
}
use btc_idx_service.Api.Service.{Site, Web, Request, service, get, post, other_verb, Verb, Response}
use btc_idx_service.Api.Effects.{Effect, service-Effect}
use btc_idx_service.Api.Reads.{Database}
use btc_idx_service.Chain.Keys.{IsConsistent}
use btc_idx_service.Aggregator.Balanced.{start-cleanup-IsBalanced, IsBalanced}
use btc_idx_service.Harvester.Consistent.{start-IsConsistent}
use btc_idx_service.Harvester.Cancelled.{cancelled-IsConsistent}
use btc_idx_service.Harvester.{received, elapsed}
use btc_idx_service.Aggregator
use btc_idx_service.Prelude.{some, [], inl, inr, ◌∷◌, ◌≡◌, List, ap, subst, sym}
use btc_idx_service.Processor.{Externals}
use btc_idx_service.Types.{P2trEvent}

pub Effect-database :
    (v : Verb) (s : Site) (a : Response × Site) → Effect v s a → a.1.database ≡ s.database
Effect-database get s a e = ap (λ (t : Site). t.database) e
Effect-database post s a (inl (_, (c, e))) = ap (λ (t : Site). t.database) e
Effect-database post s a (inr (_, e)) = ap (λ (t : Site). t.database) e
Effect-database other_verb s a e = ap (λ (t : Site). t.database) e

-- The chain tables are consistent, and the ledger tables balance.
pub record AreInOrder (r : Running) : Type 0 where
  pub chain : IsConsistent r.harvester.world.chain
  pub ledger : IsBalanced r.aggregator.ledger

module _ (x : Externals) (arrange : List P2trEvent → List P2trEvent) (web : Web) where
  asked-AreInOrder :
      (req : Request) (r : Running)
      → AreInOrder r
      → AreInOrder (with_site r (service web req (site r)).1)
  asked-AreInOrder req r k =
      let same =
        Effect-database req.verb (site r) (service web req (site r))
          (service-Effect web req (site r)) in
      record {
        chain = subst (λ (d : Database). IsConsistent d.chain) (sym same) k.chain;
        ledger = subst (λ (d : Database). IsBalanced d.ledger) (sym same) k.ledger;
      }

  Step-AreInOrder : (r t : Running) → Step x arrange web r t → AreInOrder r → AreInOrder t
  unfolding Aggregator.start
  Step-AreInOrder r _ (asked req) k = asked-AreInOrder req r k
  Step-AreInOrder r _ (commanded node c cs _ _) k = record {
    chain = start-IsConsistent x node (received (some c) ∷ []) r.harvester k.chain;
    ledger = k.ledger;
  }
  Step-AreInOrder r _ (harvested node _ _) k = record {
    chain = start-IsConsistent x node (elapsed ∷ []) r.harvester k.chain;
    ledger = k.ledger;
  }
  Step-AreInOrder r _ (cut_short node faults c cs _ _) k = record {
    chain = cancelled-IsConsistent x node faults r.harvester k.chain;
    ledger = k.ledger;
  }
  Step-AreInOrder r _ (handled m ms _ _ _) k = record {
    chain = k.chain;
    ledger = (start-cleanup-IsBalanced arrange (m ∷ []) [] r.aggregator k.ledger).0;
  }
  Step-AreInOrder r _ signalled k = record { chain = k.chain; ledger = k.ledger }
  Step-AreInOrder r _ (turned _ _ _) k = record { chain = k.chain; ledger = k.ledger }
  Step-AreInOrder r _ (cleaned m ms _ _ _) k = record {
    chain = k.chain;
    ledger = (start-cleanup-IsBalanced arrange [] (m ∷ []) r.aggregator k.ledger).1;
  }

  -- However requests, commands, harvests, harvests that a command cuts short, messages and signals
  -- interleave, whatever the node answers and the connection does, and whichever task ends: the chain
  -- tables stay consistent and the ledger tables balanced.
  pub Runs-AreInOrder : (r t : Running) → Runs x arrange web r t → AreInOrder r → AreInOrder t
  Runs-AreInOrder r _ idle k = k
  Runs-AreInOrder r t (next {t = u} runs step) k =
      Step-AreInOrder u t step (Runs-AreInOrder r u runs k)
