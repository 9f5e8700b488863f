-- ===== src/Processor/Rules.antt =====
-- Rules for the steps of the processor: a database call, a message, a transaction.
use btc_idx_service.Prelude.{[], true, false, ◌≡◌, List, Bool, ◌∷◌, refl}
use btc_idx_service.Prelude.Run.{ok, err, panic, Holds, Outcome, Holds-resume, pure}
use btc_idx_service.Chain.{Chain}
use btc_idx_service.Processor.State.{
  World, exec, settle, ProcessorError, M, in_transaction, conclude,
}
use btc_idx_service.Sql.{Statement, SqlError}
use btc_idx_service.Types.{AggregatorMsg}

module _ {A : Type 0} where
  -- Whatever the faults, a call that returns did what its statement does.
  pub Holds-exec :
      (R : A → Chain → Type 0) (Q : A → World → Type 0) (q : Statement Chain A) (w : World)
      → Holds R (q w.chain)
      → ((a : A) (w' : World) → R a w'.chain → w'.sent ≡ w.sent → Q a w')
      → Holds Q (exec q w)
  Holds-exec R Q q w h k = by_faults w.faults refl
    where
      settled :
          (v : World) (r : Outcome SqlError A × Chain)
          → v.sent ≡ w.sent
          → Holds R r
          → Holds Q (settle r v)
      settled v (ok a, c) e h' = k a (record v { chain = c }) h' e
      settled v (err x, c) e h' = tt
      settled v (panic, c) e h' = tt

      by_faults : (fs : List Bool) → w.faults ≡ fs → Holds Q (exec q w)
      by_faults [] e = rw (e, exec) (settled w (q w.chain) refl h)
      by_faults (true ∷ fs) e = rw (e, exec) tt
      by_faults (false ∷ fs) e =
          rw (e, exec) (settled (record w { faults = fs }) (q w.chain) refl h)

-- A run that fails leaves the tables as they were before it.
abbrev pub Commits :
    {A : Type 0} → World → (A → World → Type 0) → Outcome ProcessorError A × World → Type 0
Commits w Q (ok a, w') = Q a w'
Commits w Q (err e, w') = w'.chain ≡ w.chain
Commits w Q (panic, w') = w'.chain ≡ w.chain

module _ {A : Type 0} where
  -- What the body ensures from the tables at the start is what the transaction commits.
  pub Commits-in_transaction :
      (Q : A → Chain → List AggregatorMsg → Type 0) (body : M A) (w : World)
      → ((v : World)
          → v.chain ≡ w.chain
          → v.sent ≡ w.sent
          → Holds (λ a w'. Q a w'.chain w'.sent) (body v))
      → Commits w (λ a w'. Q a w'.chain w'.sent) (in_transaction body w)
  Commits-in_transaction Q body w h = concluded _ (
      Holds-resume (λ _ v. (v.chain ≡ w.chain) × (v.sent ≡ w.sent)) _ (exec (pure tt) w) _
        (Holds-exec (λ _ c. c ≡ w.chain) _ (pure tt) w refl (λ _ v c s. (c, s)))
        (λ _ v same.
          Holds-resume (λ a w'. Q a w'.chain w'.sent) _ (body v) _ (h v same.0 same.1)
            (λ a w₁ q.
              Holds-resume (λ _ w'. Q a w'.chain w'.sent) _ (exec (pure tt) w₁) _
                (Holds-exec (λ _ c. c ≡ w₁.chain) _ (pure tt) w₁ refl (λ _ w' c s. rw (c, s) q))
                (λ _ w' q'. q'))))
    where
      concluded :
          (r : Outcome ProcessorError A × World)
          → Holds (λ a w'. Q a w'.chain w'.sent) r
          → Commits w (λ a w'. Q a w'.chain w'.sent) (conclude w.chain r)
      concluded (ok a, w') q = q
      concluded (err e, w') q = refl
      concluded (panic, w') q = refl

  pub Commits-Holds :
      (w : World) (Q : A → World → Type 0) (r : Outcome ProcessorError A × World)
      → Commits w Q r
      → Holds Q r
  Commits-Holds w Q (ok a, w') h = h
  Commits-Holds w Q (err e, w') h = tt
  Commits-Holds w Q (panic, w') h = tt
