-- ===== src/Prelude/Keeps.antt =====
-- Invariants of runs that hold however the run ends, one rule for each way to build a run.
use btc_idx_service.Prelude.Run.{Run, Outcome, ok, err, panic, resume, ◌>>=◌, pure, raise}

pub record Keeps {S E A : Type 0} (P : S → Type 0) (m : Run S E A) : Type 0 where
  pub at : (s : S) → P s → P (m s).1

module _ {S E A : Type 0} {P : S → Type 0} where
  pub Keeps-pure : (a : A) → Keeps P (pure {S = S} {E = E} a)
  Keeps-pure a = record { at = λ s h. h }

  pub Keeps-raise : (e : E) → Keeps P (raise {S = S} {E = E} {A = A} e)
  Keeps-raise e = record { at = λ s h. h }

  pub Keeps-panic : Keeps {S = S} {E = E} {A = A} P (λ s. (panic, s))
  Keeps-panic = record { at = λ s h. h }

module _ {S E A B : Type 0} {P : S → Type 0} where
  pub Keeps-bind :
      (m : Run S E A) (f : A → Run S E B)
      → Keeps P m
      → ((a : A) → Keeps P (f a))
      → Keeps P (m >>= f)
  Keeps-bind m f km kf = record { at = λ s h. go (m s) (km.at s h) }
    where
      go : (r : Outcome E A × S) → P r.1 → P (resume r f).1
      go (ok a, s) h = (kf a).at s h
      go (err e, s) h = h
      go (panic, s) h = h
