-- ===== src/Exec.antt =====
-- Methods that change the shared state and may raise. Every statement commits on its own (the
-- connections are in autocommit mode), so the state that a raising method leaves comes back too.
pub mod Steps
pub mod Ensures
pub mod Raises
use group_assessment_agent.Base.{Option, none, some, List, [], ◌∷◌}

pub data Result {ℓ κ} (E : Type ℓ) (A : Type κ) : Type (ℓ ⊔ κ) where
  ok : A → Result E A
  raised : E → Result E A

abbrev pub Exec {ℓ} : Type ℓ → Type ℓ → Type ℓ → Type ℓ
Exec S E A = S → Result E A × S

module _ {ℓ} {S E A : Type ℓ} where
  unfoldable pub pure : A → Exec S E A
  pure a s = (ok a, s)

  unfoldable pub raise : E → Exec S E A
  raise e s = (raised e, s)

  unfoldable pub gets : (S → A) → Exec S E A
  gets f s = (ok (f s), s)

  unfoldable pub lift : Result E A → Exec S E A
  lift r s = (r, s)

module _ {ℓ} {S E : Type ℓ} where
  unfoldable pub modify : (S → S) → Exec S E (Unit {ℓ})
  modify f s = (ok tt, f s)

module _ {ℓ} {S E A B : Type ℓ} where
  abbrev after : Result E A → (A → Exec S E B) → Exec S E B
  after (ok a) f s = f a s
  after (raised e) f s = (raised e, s)

  infixl 10 ◌>>=◌ ◌>>◌
  -- Opening this opens the actions above too.
  unfoldable pub ◌>>=◌ : Exec S E A → (A → Exec S E B) → Exec S E B
  unfolding pure raise gets lift modify
  ◌>>=◌ m f s = let (r, s') = m s in after r f s'

  abbrev pub ◌>>◌ : Exec S E A → Exec S E B → Exec S E B
  m >> n = m >>= λ _. n

module _ {ℓ} {S E A : Type ℓ} where
  abbrev handled : Result E A → (E → Exec S E A) → Exec S E A
  handled (ok a) h s = (ok a, s)
  handled (raised e) h s = h e s

  -- `try: m except …: h(e)`. The state that `m` left is the one that the handler starts from.
  unfoldable pub catch : Exec S E A → (E → Exec S E A) → Exec S E A
  catch m h s = let (r, s') = m s in handled r h s'

module _ {ℓ} {S E A : Type ℓ} where
  -- A task of an executor: what it returns or raises comes out when its result is asked for.
  unfoldable pub attempt : Exec S E A → Exec S E (Result E A)
  attempt m s = let (r, s') = m s in (ok r, s')

module _ {ℓ} {S E A : Type ℓ} where
  -- `for a in l: body(a)`, which stops at the first statement that raises.
  unfoldable pub for_each : List A → (A → Exec S E (Unit {ℓ})) → Exec S E (Unit {ℓ})
  unfolding ◌>>=◌
  for_each [] body = pure tt
  for_each (a ∷ l) body = body a >> for_each l body

module _ {ℓ} {S E A : Type ℓ} where
  -- `if x is not None: return x`, with the rest of the body.
  unfoldable pub found_or : Option A → Exec S E (Option A) → Exec S E (Option A)
  unfolding pure
  found_or none m = m
  found_or (some a) m = pure (some a)

  -- The same where the value itself is returned.
  unfoldable pub value_or : Option A → Exec S E A → Exec S E A
  unfolding pure
  value_or none m = m
  value_or (some a) m = pure a
