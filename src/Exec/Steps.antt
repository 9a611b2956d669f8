-- ===== src/Exec/Steps.antt =====
-- What every run of an action does to the state, one rule for each way to build an action. The
-- relation is read from the state before to the state after, whether the action returns or raises.
use group_assessment_agent.Base.{
  Bool, true, false, Option, none, some, List, [], ◌∷◌, if◌then◌else◌,
}
use group_assessment_agent.Exec.{
  Result, ok, raised, Exec, pure, raise, gets, lift, ◌>>=◌, catch, for_each, found_or, value_or,
  attempt,
}

pub record IsPreorder {ℓ} {S : Type ℓ} (R : S → S → Type ℓ) : Type ℓ where
  pub refl_at : (s : S) → R s s
  pub trans_at : (s t u : S) → R s t → R t u → R s u

pub record Steps {ℓ} {S E A : Type ℓ} (R : S → S → Type ℓ) (m : Exec S E A) : Type ℓ where
  pub at : (s : S) → R s (m s).1

module _ {ℓ} {S E A : Type ℓ} {R : S → S → Type ℓ} where
  pub Steps-pure : IsPreorder R → (a : A) → Steps {E = E} R (pure a)
  unfolding pure
  Steps-pure p a = record { at = p.refl_at }

  pub Steps-raise : IsPreorder R → (e : E) → Steps {A = A} R (raise e)
  unfolding raise
  Steps-raise p e = record { at = p.refl_at }

  pub Steps-gets : IsPreorder R → (f : S → A) → Steps {E = E} R (gets f)
  unfolding gets
  Steps-gets p f = record { at = p.refl_at }

  pub Steps-lift : IsPreorder R → (r : Result E A) → Steps R (lift r)
  unfolding lift
  Steps-lift p r = record { at = p.refl_at }

  pub Steps-if :
      (b : Bool) (m n : Exec S E A) → Steps R m → Steps R n → Steps R (if b then m else n)
  Steps-if true m n hm hn = hm
  Steps-if false m n hm hn = hn

  pub Steps-catch :
      IsPreorder R
      → (m : Exec S E A) (h : E → Exec S E A) → Steps R m
      → ((e : E) → Steps R (h e))
      → Steps R (catch m h)
  unfolding catch
  Steps-catch p m h hm hh = record { at = λ s. go s (m s) (hm.at s) }
    where
      go : (s : S) (o : Result E A × S) → R s o.1 → R s (catch (λ _. o) h s).1
      go s (ok a, t) r = r
      go s (raised e, t) r = p.trans_at s t (h e t).1 r ((hh e).at t)

module _ {ℓ} {S E A B : Type ℓ} {R : S → S → Type ℓ} where
  pub Steps-bind :
      IsPreorder R
      → (m : Exec S E A) (f : A → Exec S E B) → Steps R m
      → ((a : A) → Steps R (f a))
      → Steps R (m >>= f)
  unfolding ◌>>=◌
  Steps-bind p m f hm hf = record { at = λ s. go s (m s) (hm.at s) }
    where
      go : (s : S) (o : Result E A × S) → R s o.1 → R s (((λ (_ : S). o) >>= f) s).1
      go s (ok a, t) r = p.trans_at s t (f a t).1 r ((hf a).at t)
      go s (raised e, t) r = r

module _ {ℓ} {S E A : Type ℓ} {R : S → S → Type ℓ} where
  pub Steps-for_each :
      IsPreorder R
      → (l : List A) (body : A → Exec S E (Unit {ℓ})) → ((a : A) → Steps R (body a))
      → Steps R (for_each l body)
  unfolding for_each
  Steps-for_each p [] body h = Steps-pure p tt
  Steps-for_each p (a ∷ l) body h =
      Steps-bind p (body a) (λ _. for_each l body) (h a) (λ _. Steps-for_each p l body h)

module _ {ℓ} {S E A : Type ℓ} {R : S → S → Type ℓ} where
  pub Steps-found_or :
      IsPreorder R → (o : Option A) (m : Exec S E (Option A)) → Steps R m → Steps R (found_or o m)
  unfolding found_or
  Steps-found_or p none m h = h
  Steps-found_or p (some a) m h = Steps-pure p (some a)

  pub Steps-value_or :
      IsPreorder R → (o : Option A) (m : Exec S E A) → Steps R m → Steps R (value_or o m)
  unfolding value_or
  Steps-value_or p none m h = h
  Steps-value_or p (some a) m h = Steps-pure p a

module _ {ℓ} {S E A : Type ℓ} {R : S → S → Type ℓ} where
  pub Steps-attempt : (m : Exec S E A) → Steps R m → Steps R (attempt m)
  unfolding attempt
  Steps-attempt m h = record { at = λ s. h.at s }

pub ruleset steps_rules = (
  Steps-pure, Steps-raise, Steps-gets, Steps-lift, Steps-if, Steps-catch, Steps-bind,
  Steps-for_each, Steps-found_or, Steps-value_or, Steps-attempt,
)
