-- ===== src/Exec/Raises.antt =====
-- What an action may raise, with a rule for each way to build one.
use group_assessment_agent.Exec.{Result, ok, raised, Exec, pure, ◌>>=◌}

module _ {ℓ} {E A : Type ℓ} where
  abbrev pub Allowed : (E → Type ℓ) → Result E A → Type ℓ
  Allowed Bad (ok a) = Unit
  Allowed Bad (raised e) = Bad e

-- Every error that the action raises is of the kind `Bad`, from whatever state it starts.
pub record Raises {ℓ} {S E A : Type ℓ} (Bad : E → Type ℓ) (m : Exec S E A) : Type ℓ where
  pub at : (s : S) → Allowed Bad (m s).0

module _ {ℓ} {S E A : Type ℓ} (Bad : E → Type ℓ) where
  pub Raises-pure : (a : A) → Raises {S = S} Bad (pure a)
  unfolding pure
  Raises-pure a = record { at = λ s. tt }

module _ {ℓ} {S E A B : Type ℓ} {Bad : E → Type ℓ} where
  pub Raises-bind :
      (m : Exec S E A) (f : A → Exec S E B)
      → Raises Bad m
      → ((a : A) → Raises Bad (f a))
      → Raises Bad (m >>= f)
  unfolding ◌>>=◌
  Raises-bind m f hm hf = record { at = λ s. go s (m s) (hm.at s) }
    where
      go : (s : S) (o : Result E A × S) → Allowed Bad o.0 → Allowed Bad (((λ (_ : S). o) >>= f) s).0
      go s (ok a, t) h = (hf a).at t
      go s (raised e, t) h = h
