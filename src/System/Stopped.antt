-- ===== src/System/Stopped.antt =====
-- The service after the task of the harvester has ended.
use btc_idx_service.System.Lasting.{Effect-database}
use btc_idx_service.System.Running.{
  Running, Step, Runs, site, asked, commanded, harvested, cut_short, handled, signalled, turned,
  cleaned, idle, next, with_harvester, goes_on, returned,
}
use btc_idx_service.Api.Service.{Site, Web, Request, service, get, post, other_verb, Verb, Response}
use btc_idx_service.Api.Effects.{Effect, service-Effect, is_done, post_to_closed}
use btc_idx_service.Api.Reads.{Database}
use btc_idx_service.Harvester.{
  received, start, scan_blocks, Harvester, scan_from, Command, raised, client,
}
use btc_idx_service.Commands
use btc_idx_service.Commands.{Channel}
use btc_idx_service.Prelude.{
  some, [], false, inl, inr, ◌∷◌, ◌≡◌, ◌∙◌, refl, arith, List, ℕ, Bool-cases, ap,
}
use btc_idx_service.Prelude.Run.{err, ok, panic, Outcome}
use btc_idx_service.Processor.{Externals, ProcessorError, World}
use btc_idx_service.Types.{P2trEvent}
use btc_idx_service.Client.{Node, scan_block}
use btc_idx_service.Harvester.Errors.{start_scan_fails}

pub Effect-receiving :
    (v : Verb) (s : Site) (a : Response × Site)
    → Effect v s a
    → a.1.channel.receiving ≡ s.channel.receiving
Effect-receiving get s a e = ap (λ (t : Site). t.channel.receiving) e
Effect-receiving post s a (inl (_, (c, e))) = ap (λ (t : Site). t.channel.receiving) e
Effect-receiving post s a (inr (_, e)) = ap (λ (t : Site). t.channel.receiving) e
Effect-receiving other_verb s a e = ap (λ (t : Site). t.channel.receiving) e

returned_lem : {S E A : Type 0} (o : Outcome E A × S) (e : E) → o.0 ≡ err e → returned o ≡ false
returned_lem (ok a, s) e h = absurd (never h)
  where
    never : {E A : Type 0} {a : A} {e : E} → Path (Outcome E A) (ok a) (err e) → ⊥
    never c = cc
returned_lem (err x, s) e h = refl
returned_lem (panic, s) e h = refl

pub terminate-receiving : (ch : Channel) → (Commands.terminate ch).1.receiving ≡ ch.receiving
terminate-receiving ch = elim (Bool-cases ch.receiving) [ inl e ↦ rw e refl | inr e ↦ rw e refl ]

module _ (x : Externals) (arrange : List P2trEvent → List P2trEvent) (web : Web) where
  -- The task of the harvester has ended, with the chain tables as in `r`.
  abbrev HasEnded : Running → Running → Type 0
  HasEnded r t = (t.channel.receiving ≡ false) × (t.harvester.world.chain ≡ r.harvester.world.chain)

  Step-HasEnded : (r t u : Running) → Step x arrange web t u → HasEnded r t → HasEnded r u
  Step-HasEnded r t _ (asked req) k =
      let effect = service-Effect web req (site t) in
      (
        Effect-receiving req.verb (site t) (service web req (site t)) effect ∙ k.0,
        ap (λ (d : Database). d.chain)
              (Effect-database req.verb (site t) (service web req (site t)) effect)
            ∙ k.1,
      )
  Step-HasEnded r t _ (commanded node c cs e _) k = absurd (ground (arith, e, k.0))
  Step-HasEnded r t _ (harvested node e _) k = absurd (ground (arith, e, k.0))
  Step-HasEnded r t _ (cut_short node faults c cs e _) k = absurd (ground (arith, e, k.0))
  Step-HasEnded r t _ (handled m ms _ _ _) k = k
  Step-HasEnded r t _ signalled k = (terminate-receiving t.channel ∙ k.0, k.1)
  Step-HasEnded r t _ (turned _ _ _) k = k
  Step-HasEnded r t _ (cleaned m ms _ _ _) k = k

  Runs-HasEnded : (r t u : Running) → Runs x arrange web t u → HasEnded r t → HasEnded r u
  Runs-HasEnded r t _ idle k = k
  Runs-HasEnded r t u (next {t = v} runs step) k =
      Step-HasEnded r v u step (Runs-HasEnded r t v runs k)

  -- The service after the harvester has taken a command to scan off its channel.
  abbrev pub after_scan : Node → ℕ → ℕ → List Command → Running → Running
  after_scan node from to cs r =
      with_harvester r (start x node (received (some (scan_blocks from to)) ∷ []) r.harvester).1 cs
        (goes_on (scan_blocks from to)
          (start x node (received (some (scan_blocks from to)) ∷ []) r.harvester))

  scan_leaves_world :
      (node : Node) (from to : ℕ) (h : Harvester) (e : ProcessorError) (k : ℕ)
      → scan_block node (some from) h.requests ≡ (err e, k)
      → (start x node (received (some (scan_blocks from to)) ∷ []) h).1.world ≡ h.world
  unfolding start scan_from
  scan_leaves_world node from to h e k fails = ground arith

  after_scan-HasEnded :
      (node : Node) (from to : ℕ) (cs : List Command) (r : Running) (e : ProcessorError) (k : ℕ)
      → scan_block node (some from) r.harvester.requests ≡ (err e, k)
      → HasEnded r (after_scan node from to cs r)
  after_scan-HasEnded node from to cs r e k fails =
      let (ended, _) = start_scan_fails x node from to [] r.harvester e k fails in
      (
        returned_lem (start x node (received (some (scan_blocks from to)) ∷ []) r.harvester)
            (raised (client e)) ended,
        ap (λ (w : World). w.chain) (scan_leaves_world node from to r.harvester e k fails),
      )

  -- A command to scan whose first block the node does not give, whatever comes after it: the chain
  -- tables stay as they are, and no POST is answered as done.
  pub scan_ends_service :
      (node : Node) (from to : ℕ) (cs : List Command) (r t : Running) (req : Request)
      (e : ProcessorError) (k : ℕ)
      → scan_block node (some from) r.harvester.requests ≡ (err e, k)
      → Runs x arrange web (after_scan node from to cs r) t
      → req.verb ≡ post
      → (t.harvester.world.chain ≡ r.harvester.world.chain)
        × (is_done (service web req (site t)).0 ≡ false)
  scan_ends_service node from to cs r t req e k fails runs posts =
      let (closed, same) =
        Runs-HasEnded r (after_scan node from to cs r) t runs
          (after_scan-HasEnded node from to cs r e k fails) in
      (same, post_to_closed web req (site t) posts closed)
