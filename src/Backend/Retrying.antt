-- ===== src/Backend/Retrying.antt =====
-- `_request` of the two clients: a call under tenacity's `Retrying(reraise=True,
-- retry=retry_if_exception_type(TransientError), stop=stop_after_attempt(n))`, a parameter.
use group_assessment_agent.Base.{
  ℕ, zero, suc, ◌+◌, ◌≤◌, ◌≡◌, refl, ap, ◌∙◌, Bool, true, false, Bool-cases, List, [], ◌∷◌, ◌++◌,
  length, arith, inl, inr, ◌⊎◌,
}
use mathlib.Core.List.{append_assoc}
use group_assessment_agent.Exec.{Result, ok, raised}
use group_assessment_agent.Backend.Http.{
  Request, Response, Call, Server, Classify, Failure, is_transient, do_request,
}

abbrev pub retries : Result Failure Response → Bool
retries (ok r) = false
retries (raised e) = is_transient e

-- `call n m` is a call of `m` with `n` attempts left. The pauses between the attempts are left out.
pub record Retrying : Type 0 where
  pub call : ℕ → Call Response → Call Response
  -- a result, or an exception of another type, ends the call
  pub settles :
      (n : ℕ) (m : Call Response) (s : List Request)
      → retries (m s).0 ≡ false
      → call (suc n) m s ≡ m s
  -- after the last attempt its exception is raised again
  pub gives_up : (m : Call Response) (s : List Request) → call 1 m s ≡ m s
  pub again :
      (n : ℕ) (m : Call Response) (s : List Request)
      → retries (m s).0 ≡ true
      → call (suc (suc n)) m s ≡ call (suc n) m (m s).1

unfoldable pub repeat : {A : Type 0} → ℕ → A → List A
repeat zero a = []
repeat (suc n) a = a ∷ repeat n a

module _ (retrying : Retrying) (server : Server) (reading : Classify) where
  unfoldable pub request : ℕ → Request → Call Response
  unfolding do_request
  request max_attempts r = retrying.call max_attempts (do_request server reading r)

  -- The outcomes of `k` attempts from the one numbered `first` were all transient errors.
  abbrev pub Retried : Request → ℕ → ℕ → Type 0
  Retried r first zero = Unit
  Retried r first (suc k) = (retries (reading (server first r)) ≡ true) × Retried r (suc first) k

  length-snoc : (l : List Request) (r : Request) → length (l ++ (r ∷ [])) ≡ suc (length l)
  length-snoc [] r = refl
  length-snoc (x ∷ l) r = ap suc (length-snoc l r)

  -- With `suc n` attempts allowed, a call sends the same request between once and `suc n` times. Every
  -- attempt but the last failed with a transient error, the result is that of the last one, and
  -- the last one is no transient error unless all attempts are used up.
  pub request_attempts :
      (r : Request) (n : ℕ) (sent : List Request)
      → (k : ℕ) × (k ≤ n)
        × (request (suc n) r sent
            ≡ (reading (server (length sent + k) r), sent ++ repeat (suc k) r))
        × ((k ≡ n) ⊎ (retries (reading (server (length sent + k) r)) ≡ false))
        × Retried r (length sent) k
  unfolding request do_request repeat
  request_attempts r zero sent = (
    0,
    omega arith,
    rw (retrying.gives_up (do_request server reading r) sent)
        (let e : length sent + 0 ≡ length sent = omega arith in rw e refl),
    inl refl,
    tt,
  )
  request_attempts r (suc n) sent = elim (Bool-cases (retries (reading (server (length sent) r)))) [
    | inr over ↦ (
      0,
      omega arith,
      rw (retrying.settles (suc n) (do_request server reading r) sent over)
          (let e : length sent + 0 ≡ length sent = omega arith in rw e refl),
      inr (let e : length sent + 0 ≡ length sent = omega arith in rw e over),
      tt,
    )
    | inl transient ↦
        let (k, bound, result, last, before) = request_attempts r n (sent ++ (r ∷ [])) in
        let e : length (sent ++ (r ∷ [])) + k ≡ length sent + suc k =
          omega (arith, length-snoc sent r) in
        (
          suc k,
          omega arith,
          retrying.again n (do_request server reading r) sent transient
              ∙ (result ∙ (rw (e, append_assoc sent (r ∷ []) (repeat (suc k) r)) refl)),
          elim last [ inl all ↦ inl (ap suc all) | inr settled ↦ inr (rw e at settled) ],
          (transient, rw (length-snoc sent r) at before),
        )
  ]
