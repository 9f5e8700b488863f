-- ===== src/Aggregator/Rules.antt =====
-- Rules for the steps of the aggregator: a database call, a transaction.
use btc_idx_service.Prelude.{[], true, false, ◌∷◌, ◌≡◌, refl, List, Bool, ℕ}
use btc_idx_service.Prelude.Run.{ok, err, panic, Outcome, Holds, resume, Holds-resume, pure}
use btc_idx_service.Ledger.{Ledger}
use btc_idx_service.Aggregator.State.{
  M, Aggregator, in_transaction, AggregatorError, exec, conclude, settle,
}
use btc_idx_service.Sql.{Statement, SqlError}

module _ {A : Type 0} where
  -- Whatever the faults, a call that returns did what its statement does.
  pub Holds-exec :
      (R : A → Ledger → Type 0) (Q : A → Aggregator → Type 0) (q : Statement Ledger A)
      (g : Aggregator)
      → Holds R (q g.ledger)
      → ((a : A) (g' : Aggregator)
          → R a g'.ledger
          → g'.last_block_number ≡ g.last_block_number
          → Q a g')
      → Holds Q (exec q g)
  Holds-exec R Q q g h k = by_faults g.faults refl
    where
      settled :
          (v : Aggregator) (r : Outcome SqlError A × Ledger)
          → v.last_block_number ≡ g.last_block_number
          → Holds R r
          → Holds Q (settle r v)
      settled v (ok a, l) e h' = k a (record v { ledger = l }) h' e
      settled v (err x, l) e h' = tt
      settled v (panic, l) e h' = tt

      by_faults : (fs : List Bool) → g.faults ≡ fs → Holds Q (exec q g)
      by_faults [] e = rw (e, exec) (settled g (q g.ledger) refl h)
      by_faults (true ∷ fs) e = rw (e, exec) tt
      by_faults (false ∷ fs) e =
          rw (e, exec) (settled (record g { faults = fs }) (q g.ledger) refl h)

-- A call that returns has left what its statement leaves, and the counter alone.
abbrev pub After : {A : Type 0} → Ledger → ℕ → A → Aggregator → Type 0
After l n _ g = (g.ledger ≡ l) × (g.last_block_number ≡ n)

module _ {A : Type 0} where
  pub statement_result : (r : Outcome SqlError A × Ledger) → Holds (λ _ l. l ≡ r.1) r
  statement_result (ok a, l) = refl
  statement_result (err e, l) = tt
  statement_result (panic, l) = tt

  pub exec-After :
      (q : Statement Ledger A) (g : Aggregator)
      → Holds (After (q g.ledger).1 g.last_block_number) (exec q g)
  exec-After q g =
      Holds-exec (λ _ l. l ≡ (q g.ledger).1) _ q g (statement_result (q g.ledger))
        (λ _ g' l n. (l, n))

-- `Q` of a run that returned, and of the tables alone `P` of one that did not.
abbrev pub Ends :
    {A : Type 0}
    → (Ledger → Type 0)
    → (A → Aggregator → Type 0)
    → Outcome AggregatorError A × Aggregator
    → Type 0
Ends P Q (ok a, g) = Q a g
Ends P Q (err e, g) = P g.ledger
Ends P Q (panic, g) = P g.ledger

module _ {A : Type 0} where
  pub Holds-Ends :
      (P : Ledger → Type 0) (Q : A → Aggregator → Type 0)
      (r : Outcome AggregatorError A × Aggregator)
      → Ends P Q r
      → Holds Q r
  Holds-Ends P Q (ok a, g) h = h
  Holds-Ends P Q (err e, g) h = tt
  Holds-Ends P Q (panic, g) h = tt

  -- A call that fails has done to the tables what `P` allows.
  pub Ends-exec :
      (P : Ledger → Type 0) (Q : A → Aggregator → Type 0) (q : Statement Ledger A) (g : Aggregator)
      → P g.ledger
      → P (q g.ledger).1
      → Holds
          (λ a l.
            (g' : Aggregator) → g'.ledger ≡ l → g'.last_block_number ≡ g.last_block_number → Q a g')
          (q g.ledger)
      → Ends P Q (exec q g)
  Ends-exec P Q q g before after h = by_faults g.faults refl
    where
      Later : A → Ledger → Type 0
      Later a l =
          (g' : Aggregator) → g'.ledger ≡ l → g'.last_block_number ≡ g.last_block_number → Q a g'

      settled :
          (v : Aggregator) (r : Outcome SqlError A × Ledger)
          → v.last_block_number ≡ g.last_block_number
          → P r.1
          → Holds Later r
          → Ends P Q (settle r v)
      settled v (ok a, l) e p h' = h' (record v { ledger = l }) refl e
      settled v (err x, l) e p h' = p
      settled v (panic, l) e p h' = p

      by_faults : (fs : List Bool) → g.faults ≡ fs → Ends P Q (exec q g)
      by_faults [] e = rw (e, exec) (settled g (q g.ledger) refl after h)
      by_faults (true ∷ fs) e = rw (e, exec) before
      by_faults (false ∷ fs) e =
          rw (e, exec) (settled (record g { faults = fs }) (q g.ledger) refl after h)

module _ {A B : Type 0} where
  pub Ends-resume :
      (P : Ledger → Type 0) (R : A → Aggregator → Type 0) (Q : B → Aggregator → Type 0)
      (r : Outcome AggregatorError A × Aggregator) (f : A → M B)
      → Ends P R r
      → ((a : A) (g : Aggregator) → R a g → Ends P Q (f a g))
      → Ends P Q (resume r f)
  Ends-resume P R Q (ok a, g) f h k = k a g h
  Ends-resume P R Q (err e, g) f h k = h
  Ends-resume P R Q (panic, g) f h k = h

module _ {A : Type 0} where
  -- A transaction commits what its body ensures, or rolls the tables back.
  pub Ends-in_transaction :
      (P : Ledger → Type 0) (Q : A → Ledger → ℕ → Type 0) (body : M A) (g : Aggregator)
      → ((n : ℕ) → P (record g.ledger { next_sequence = n }))
      → ((v : Aggregator)
          → v.ledger ≡ g.ledger
          → v.last_block_number ≡ g.last_block_number
          → Holds (λ a g'. Q a g'.ledger g'.last_block_number) (body v))
      → Ends P (λ a g'. Q a g'.ledger g'.last_block_number) (in_transaction body g)
  Ends-in_transaction P Q body g rolled h = concluded _ (
      Holds-resume (λ _ v. (v.ledger ≡ g.ledger) × (v.last_block_number ≡ g.last_block_number)) _
        (exec (pure tt) g) _
        (Holds-exec (λ _ l. l ≡ g.ledger) _ (pure tt) g refl (λ _ v l n. (l, n)))
        (λ _ v same.
          Holds-resume (λ a g'. Q a g'.ledger g'.last_block_number) _ (body v) _ (h v same.0 same.1)
            (λ a w q.
              Holds-resume (λ _ g'. Q a g'.ledger g'.last_block_number) _ (exec (pure tt) w) _
                (Holds-exec (λ _ l. l ≡ w.ledger) _ (pure tt) w refl (λ _ g' l n. rw (l, n) q))
                (λ _ g' q'. q'))))
    where
      concluded :
          (r : Outcome AggregatorError A × Aggregator)
          → Holds (λ a g'. Q a g'.ledger g'.last_block_number) r
          → Ends P (λ a g'. Q a g'.ledger g'.last_block_number) (conclude g.ledger r)
      concluded (ok a, g') q = q
      concluded (err e, g') q = rolled g'.ledger.next_sequence
      concluded (panic, g') q = rolled g'.ledger.next_sequence

  pub Holds-in_transaction :
      (Q : A → Ledger → ℕ → Type 0) (body : M A) (g : Aggregator)
      → ((v : Aggregator)
          → v.ledger ≡ g.ledger
          → v.last_block_number ≡ g.last_block_number
          → Holds (λ a g'. Q a g'.ledger g'.last_block_number) (body v))
      → Holds (λ a g'. Q a g'.ledger g'.last_block_number) (in_transaction body g)
  Holds-in_transaction Q body g h =
      Holds-Ends (λ _. Unit) (λ a g'. Q a g'.ledger g'.last_block_number) _
        (Ends-in_transaction (λ _. Unit) Q body g (λ n. tt) h)
