-- ===== src/Harvester/Rules.antt =====
-- Rules for the steps of the harvester.
use btc_idx_service.Prelude.Run.{ok, err, panic, Outcome, Holds, resume, Run}
use btc_idx_service.Prelude.{ℕ}
use btc_idx_service.Harvester.State.{
  out_of_fuel, raised, Harvester, Stop, H, raised, HarvesterError, on_client, convert, client,
  on_processor,
}
use btc_idx_service.Processor.{World, ProcessorError}
use btc_idx_service.Client.{C}

-- A run has not run out of fuel, and `Q` holds of what it returned, if it returned.
abbrev pub Settles : {A : Type 0} → (A → Harvester → Type 0) → Outcome Stop A × Harvester → Type 0
Settles Q (ok a, h) = Q a h
Settles Q (err (raised e), h) = Unit
Settles Q (err out_of_fuel, h) = ⊥
Settles Q (panic, h) = Unit

module _ {A B : Type 0} where
  pub Settles-resume :
      (R : A → Harvester → Type 0) (Q : B → Harvester → Type 0) (r : Outcome Stop A × Harvester)
      (f : A → H B)
      → Settles R r
      → ((a : A) (h : Harvester) → R a h → Settles Q (f a h))
      → Settles Q (resume r f)
  Settles-resume R Q (ok a, h) f s k = k a h s
  Settles-resume R Q (err (raised e), h) f s k = tt
  Settles-resume R Q (err out_of_fuel, h) f s k = absurd s
  Settles-resume R Q (panic, h) f s k = tt

module _ {A : Type 0} where
  pub Settles-mono :
      (R Q : A → Harvester → Type 0) (r : Outcome Stop A × Harvester)
      → Settles R r
      → ((a : A) (h : Harvester) → R a h → Q a h)
      → Settles Q r
  Settles-mono R Q (ok a, h) s k = k a h s
  Settles-mono R Q (err (raised e), h) s k = tt
  Settles-mono R Q (err out_of_fuel, h) s k = absurd s
  Settles-mono R Q (panic, h) s k = tt

  pub on_processor-Settles :
      (R : A → World → Type 0) (Q : A → Harvester → Type 0) (wrap : ProcessorError → HarvesterError)
      (q : Run World ProcessorError A) (h : Harvester)
      → Holds R (q h.world)
      → ((a : A) (w : World) → R a w → Q a (record h { world = w }))
      → Settles Q (on_processor wrap q h)
  on_processor-Settles R Q wrap q h s k = go (q h.world) s
    where
      go :
          (r : Outcome ProcessorError A × World)
          → Holds R r
          → Settles Q (convert wrap r.0, record h { world = r.1 })
      go (ok a, w) s' = k a w s'
      go (err e, w) s' = tt
      go (panic, w) s' = tt

  pub on_client-Settles :
      (R : A → Type 0) (Q : A → Harvester → Type 0) (q : C A) (h : Harvester)
      → Holds (λ a _. R a) (q h.requests)
      → ((a : A) (k : ℕ) → R a → Q a (record h { requests = k }))
      → Settles Q (on_client q h)
  on_client-Settles R Q q h s k = go (q h.requests) s
    where
      go :
          (r : Outcome ProcessorError A × ℕ)
          → Holds (λ a _. R a) r
          → Settles Q (convert client r.0, record h { requests = r.1 })
      go (ok a, n) s' = k a n s'
      go (err e, n) s' = tt
      go (panic, n) s' = tt
