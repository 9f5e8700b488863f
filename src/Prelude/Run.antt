-- ===== src/Prelude/Run.antt =====
-- Fallible code over a state. A panic is an outcome of its own: no caller handles it.
use btc_idx_service.Prelude.{◌≡◌, refl}

pub data Outcome (E A : Type 0) : Type 0 where
  ok : A → Outcome E A
  err : E → Outcome E A
  panic : Outcome E A

abbrev pub Run : Type 0 → Type 0 → Type 0 → Type 0
Run S E A = S → Outcome E A × S

abbrev pub pure : {S E A : Type 0} → A → Run S E A
pure a s = (ok a, s)

abbrev pub raise : {S E A : Type 0} → E → Run S E A
raise e s = (err e, s)

-- How a run goes on after a step: an error or a panic skips what follows.
abbrev pub resume : {S E A B : Type 0} → Outcome E A × S → (A → Run S E B) → Outcome E B × S
resume (ok a, s) f = f a s
resume (err e, s) f = (err e, s)
resume (panic, s) f = (panic, s)

infixl 5 ◌>>=◌ ◌>>◌
abbrev pub ◌>>=◌ : {S E A B : Type 0} → Run S E A → (A → Run S E B) → Run S E B
◌>>=◌ m f s = resume (m s) f

abbrev pub ◌>>◌ : {S E A B : Type 0} → Run S E A → Run S E B → Run S E B
m >> k = m >>= λ _. k

-- `Q` holds of what a run returned, if it returned.
abbrev pub Holds {κ} : {S E A : Type 0} → (A → S → Type κ) → Outcome E A × S → Type κ
Holds Q (ok a, s) = Q a s
Holds Q (err e, s) = Unit
Holds Q (panic, s) = Unit

module _ {κ} {S E A B : Type 0} where
  -- The rule for a sequence: what the first step ensures is what the rest starts from.
  pub Holds-resume :
      (R : A → S → Type κ) (Q : B → S → Type κ) (r : Outcome E A × S) (f : A → Run S E B)
      → Holds R r
      → ((a : A) (s : S) → R a s → Holds Q (f a s))
      → Holds Q (resume r f)
  Holds-resume R Q (ok a, s) f h k = k a s h
  Holds-resume R Q (err e, s) f h k = tt
  Holds-resume R Q (panic, s) f h k = tt

module _ {κ} {S E A : Type 0} where
  pub Holds-mono :
      (R Q : A → S → Type κ) (r : Outcome E A × S)
      → Holds R r
      → ((a : A) (s : S) → R a s → Q a s)
      → Holds Q r
  Holds-mono R Q (ok a, s) h k = k a s h
  Holds-mono R Q (err e, s) h k = tt
  Holds-mono R Q (panic, s) h k = tt

  -- What `Holds` says of a run that is known to have returned.
  pub Holds-ok :
      (Q : A → S → Type κ) (r : Outcome E A × S) (a : A) (s : S) → Holds Q r → r ≡ (ok a, s) → Q a s
  Holds-ok Q r a s h e = rw e at h

-- Where nothing is asked of what a run returned.
pub Holds-any : {S E A : Type 0} (r : Outcome E A × S) → Holds (λ _ _. Unit {0}) r
Holds-any (ok a, s) = tt
Holds-any (err e, s) = tt
Holds-any (panic, s) = tt

-- A run returned, and `Q` holds of what it returned.
abbrev pub Returns : {S E A : Type 0} → (A → S → Type 0) → Outcome E A × S → Type 0
Returns Q (ok a, s) = Q a s
Returns Q (err e, s) = ⊥
Returns Q (panic, s) = ⊥

module _ {S E A B : Type 0} where
  pub Returns-resume :
      (R : A → S → Type 0) (Q : B → S → Type 0) (r : Outcome E A × S) (f : A → Run S E B)
      → Returns R r
      → ((a : A) (s : S) → R a s → Returns Q (f a s))
      → Returns Q (resume r f)
  Returns-resume R Q (ok a, s) f h k = k a s h
  Returns-resume R Q (err e, s) f h k = absurd h
  Returns-resume R Q (panic, s) f h k = absurd h

module _ {S E A : Type 0} where
  pub Returns-mono :
      (R Q : A → S → Type 0) (r : Outcome E A × S)
      → Returns R r
      → ((a : A) (s : S) → R a s → Q a s)
      → Returns Q r
  Returns-mono R Q (ok a, s) h k = k a s h
  Returns-mono R Q (err e, s) h k = absurd h
  Returns-mono R Q (panic, s) h k = absurd h

  -- A run that returns, returns what holds of it if it returns.
  pub Returns-Holds :
      (Q : A → S → Type 0) (r : Outcome E A × S)
      → Returns (λ _ _. Unit {0}) r
      → Holds Q r
      → Returns Q r
  Returns-Holds Q (ok a, s) k h = h
  Returns-Holds Q (err e, s) k h = absurd k
  Returns-Holds Q (panic, s) k h = absurd k

  pub Returns-both :
      (Q R : A → S → Type 0) (r : Outcome E A × S)
      → Returns Q r
      → Holds R r
      → Returns (λ a s. Q a s × R a s) r
  Returns-both Q R (ok a, s) k h = (k, h)
  Returns-both Q R (err e, s) k h = absurd k
  Returns-both Q R (panic, s) k h = absurd k

  pub Returns-state :
      (Q : A → S → Type 0) (P : S → Type 0) (r : Outcome E A × S)
      → Returns Q r
      → P r.1
      → Returns (λ a s. Q a s × P s) r
  Returns-state Q P (ok a, s) k h = (k, h)
  Returns-state Q P (err e, s) k h = absurd k
  Returns-state Q P (panic, s) k h = absurd k

-- What the state satisfies however a run ends, it satisfies if the run returned.
pub Holds-state :
    {S E A : Type 0} (P : S → Type 0) (r : Outcome E A × S) → P r.1 → Holds (λ _ s. P s) r
Holds-state P (ok a, s) h = h
Holds-state P (err e, s) h = tt
Holds-state P (panic, s) h = tt

-- `expect`, or a match whose error case panics.
abbrev pub or_panic : {S E A : Type 0} → Outcome E A × S → Outcome E A × S
or_panic (ok a, s) = (ok a, s)
or_panic (err e, s) = (panic, s)
or_panic (panic, s) = (panic, s)

pub Returns-ok :
    {S E A : Type 0} (Q : A → S → Type 0) (r : Outcome E A × S)
    → Returns Q r
    → (a : A) × (s : S) × (r ≡ (ok a, s)) × Q a s
Returns-ok Q (ok a, s) h = (a, s, refl, h)
Returns-ok Q (err e, s) h = absurd h
Returns-ok Q (panic, s) h = absurd h
