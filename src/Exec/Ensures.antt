-- ===== src/Exec/Ensures.antt =====
-- What holds when an action returns: from a condition on the state before to one on the value and
-- the state after, with a rule for each way to build an action. Where it raises, nothing is said.
use group_assessment_agent.Exec.{Result, ok, raised, Exec, pure, raise, lift, ◌>>=◌, catch, attempt}
use group_assessment_agent.Exec.Steps.{Steps}

module _ {ℓ} {S E A : Type ℓ} where
  abbrev pub Outcome : (A → S → Type ℓ) → Result E A → S → Type ℓ
  Outcome Q (ok a) s = Q a s
  Outcome Q (raised e) s = Unit

  pub record Ensures (P : S → Type ℓ) (m : Exec S E A) (Q : A → S → Type ℓ) : Type ℓ where
    pub at : (s : S) → P s → Outcome Q (m s).0 (m s).1

  pub Ensures-pure :
      {P : S → Type ℓ} {Q : A → S → Type ℓ} (a : A) → ((s : S) → P s → Q a s) → Ensures P (pure a) Q
  unfolding pure
  Ensures-pure a h = record { at = h }

  pub Ensures-raise : {P : S → Type ℓ} {Q : A → S → Type ℓ} (e : E) → Ensures P (raise e) Q
  unfolding raise
  Ensures-raise e = record { at = λ s p. tt }

  pub Ensures-weaken :
      {P P' : S → Type ℓ} {Q : A → S → Type ℓ} (m : Exec S E A)
      → ((s : S) → P s → P' s)
      → Ensures P' m Q
      → Ensures P m Q
  Ensures-weaken m w h = record { at = λ s p. h.at s (w s p) }

module _ {ℓ} {S E A B : Type ℓ} {P : S → Type ℓ} {Q : A → S → Type ℓ} {R : B → S → Type ℓ} where
  pub Ensures-bind :
      (m : Exec S E A) (f : A → Exec S E B)
      → Ensures P m Q
      → ((a : A) → Ensures (Q a) (f a) R)
      → Ensures P (m >>= f) R
  unfolding ◌>>=◌
  Ensures-bind m f hm hf = record { at = λ s p. go s (m s) (hm.at s p) }
    where
      go :
          (s : S) (o : Result E A × S)
          → Outcome Q o.0 o.1
          → Outcome R (((λ (_ : S). o) >>= f) s).0 (((λ (_ : S). o) >>= f) s).1
      go s (ok a, t) q = (hf a).at t q
      go s (raised e, t) q = tt

module _ {ℓ} {S E A : Type ℓ} where
  pub Ensures-trivial : (m : Exec S E A) → Ensures (λ _. Unit {ℓ}) m (λ _ _. Unit {ℓ})
  Ensures-trivial m = record { at = λ s p. go s (m s).0 }
    where
      go : (s : S) (r : Result E A) → Outcome (λ _ _. Unit {ℓ}) r (m s).1
      go s (ok a) = tt
      go s (raised e) = tt

-- Where the value of the first action does not matter.
module _ {ℓ} {S E A B : Type ℓ} {R : B → S → Type ℓ} where
  pub Ensures-then :
      (m : Exec S E A) (f : A → Exec S E B)
      → ((a : A) → Ensures (λ _. Unit {ℓ}) (f a) R)
      → Ensures (λ _. Unit {ℓ}) (m >>= f) R
  Ensures-then m f h = Ensures-bind m f (Ensures-trivial m) h

module _ {ℓ} {E A : Type ℓ} where
  -- A fact on the result alone.
  abbrev pub Returned : (A → Type ℓ) → Result E A → Type ℓ
  Returned Q (ok a) = Q a
  Returned Q (raised e) = Unit

module _ {ℓ} {S E A : Type ℓ} where
  pub Ensures-catch :
      {P : S → Type ℓ} {Q : A → S → Type ℓ} (m : Exec S E A) (h : E → Exec S E A)
      → Ensures P m Q
      → ((e : E) → Ensures (λ _. Unit {ℓ}) (h e) Q)
      → Ensures P (catch m h) Q
  unfolding catch
  Ensures-catch {Q = Q} m h hm hh = record { at = λ s p. go s (m s) (hm.at s p) }
    where
      go :
          (s : S) (o : Result E A × S)
          → Outcome Q o.0 o.1
          → Outcome Q (catch (λ (_ : S). o) h s).0 (catch (λ (_ : S). o) h s).1
      go s (ok a, t) q = q
      go s (raised e, t) q = (hh e).at t tt

  pub Ensures-attempt :
      {P : S → Type ℓ} {Q : A → Type ℓ} (m : Exec S E A)
      → Ensures P m (λ a _. Q a)
      → Ensures P (attempt m) (λ r _. Returned Q r)
  unfolding attempt
  Ensures-attempt {Q = Q} m h = record { at = λ s p. go (m s).0 (m s).1 (h.at s p) }
    where
      go : (r : Result E A) (t : S) → Outcome (λ a _. Q a) r t → Returned Q r
      go (ok a) t q = q
      go (raised e) t q = tt

  pub Ensures-lift :
      {Q : A → Type ℓ} (r : Result E A)
      → Returned Q r
      → Ensures {S = S} (λ _. Unit {ℓ}) (lift r) (λ a _. Q a)
  unfolding lift
  Ensures-lift (ok a) q = record { at = λ s p. q }
  Ensures-lift (raised e) q = record { at = λ s p. tt }

-- What is known of the value only.
module _ {ℓ} {S E A B : Type ℓ} {P : S → Type ℓ} {Q : A → Type ℓ} {R : B → S → Type ℓ} where
  pub Ensures-value :
      (m : Exec S E A) (f : A → Exec S E B)
      → Ensures P m (λ a _. Q a)
      → ((a : A) → Q a → Ensures (λ _. Unit {ℓ}) (f a) R)
      → Ensures P (m >>= f) R
  Ensures-value m f hm hf = Ensures-bind m f hm (λ a. record { at = λ s q. (hf a q).at s tt })

module _ {ℓ} {S E A : Type ℓ} where
  pub Ensures-both :
      {P : S → Type ℓ} {Q R : A → S → Type ℓ} (m : Exec S E A)
      → Ensures P m Q
      → Ensures P m R
      → Ensures P m (λ a s. Q a s × R a s)
  Ensures-both {Q = Q} {R = R} m h k = record { at = λ s p. go (m s) (h.at s p) (k.at s p) }
    where
      go :
          (o : Result E A × S)
          → Outcome Q o.0 o.1
          → Outcome R o.0 o.1
          → Outcome (λ a s. Q a s × R a s) o.0 o.1
      go (ok a, s) q r = (q, r)
      go (raised e, s) q r = tt

  -- What every run keeps, a run that returns keeps.
  pub Ensures-kept :
      {P : S → Type ℓ} {R : S → S → Type ℓ} (m : Exec S E A)
      → Steps R m
      → ((s t : S) → R s t → P s → P t)
      → Ensures P m (λ _ t. P t)
  Ensures-kept {P = P} m h keeps = record { at = λ s p. go (m s) (keeps s (m s).1 (h.at s) p) }
    where
      go : (o : Result E A × S) → P o.1 → Outcome (λ _ t. P t) o.0 o.1
      go (ok a, t) p = p
      go (raised e, t) p = tt

  pub Ensures-map :
      {P : S → Type ℓ} {Q R : A → S → Type ℓ} (m : Exec S E A)
      → ((a : A) (s : S) → Q a s → R a s)
      → Ensures P m Q
      → Ensures P m R
  Ensures-map {Q = Q} {R = R} m f h = record { at = λ s p. go (m s) (h.at s p) }
    where
      go : (o : Result E A × S) → Outcome Q o.0 o.1 → Outcome R o.0 o.1
      go (ok a, s) q = f a s q
      go (raised e, s) q = tt
