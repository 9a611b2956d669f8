-- ===== src/ProcessedStore/Attempts.antt =====
-- How often the handling of a message is begun.
use group_assessment_agent.Base.{
  ℕ, zero, suc, ◌+◌, ◌≤◌, ◌<◌, Text, ==_refl, ◌≡◌, refl, ap, ◌∙◌, ◌⊎◌, Bool, true, false, Option,
  none, some, List, [], ◌∷◌, ◌++◌, find, update_where, is_some, arith, Bool-cases, Option-cases,
  inl, inr, if◌then◌else◌, ltb, ◌&&◌,
}
use group_assessment_agent.Exec.{Result, ok, raised}
use group_assessment_agent.Messages.{Error}
use group_assessment_agent.World.{World, AuthReason, Outcome, Handling, ProcessedMessage}
use group_assessment_agent.ProcessedStore.{
  has_message_id, begun, count_attempt, begin, finish, finalize, is_in_progress,
}

abbrev pub row : Text → List ProcessedMessage → Option ProcessedMessage
row id rows = find (has_message_id id) rows

row-snoc :
    (id : Text) (rows : List ProcessedMessage) (r : ProcessedMessage)
    → row id rows ≡ none
    → r.message_id ≡ id
    → row id (rows ++ (r ∷ [])) ≡ some r
row-snoc id [] r h e = ground (arith, ==_refl id)
row-snoc id (x ∷ xs) r h e = ground (arith, row-snoc id xs r)

row-update :
    (id : Text) (f : ProcessedMessage → ProcessedMessage) (rows : List ProcessedMessage)
    (r : ProcessedMessage)
    → ((x : ProcessedMessage) → (f x).message_id ≡ x.message_id)
    → row id rows ≡ some r
    → row id (update_where (has_message_id id) f rows) ≡ some (f r)
row-update id f [] r keeps h = ground arith
row-update id f (x ∷ xs) r keeps h = ground (arith, keeps x, row-update id f xs r keeps)

-- The attempts that a message has used up; a message that was never begun has none.
abbrev pub attempts_of : Option ProcessedMessage → ℕ
attempts_of none = 0
attempts_of (some r) = r.attempt_count

abbrev pub is_open : Option ProcessedMessage → Bool
is_open none = true
is_open (some r) = is_in_progress r.outcome

abbrev pub granted : Result Error Bool → Bool
granted (ok b) = b
granted (raised e) = false

module _ (id sender : Text) (auth : AuthReason) (w : World) where
  -- A message is begun exactly when it is not finished and has used up fewer than three attempts.
  pub begin_exact :
      (begin id sender auth w).0
      ≡ ok (is_open (row id w.processed) && ltb (attempts_of (row id w.processed)) 3)
  unfolding begin
  begin_exact = ground arith

  -- A begun message has used up one attempt more, and is in progress.
  pub begin_counts :
      (begin id sender auth w).0 ≡ ok true
      → (attempts_of (row id (begin id sender auth w).1.processed)
          ≡ attempts_of (row id w.processed) + 1)
        × (is_open (row id (begin id sender auth w).1.processed) ≡ true)
  unfolding begin
  begin_counts h = elim (Option-cases (row id w.processed)) [
    | inl e ↦ ground (arith, row-snoc id w.processed (begun id sender auth w.now) e refl)
    | inr (r, e) ↦ ground (arith, row-update id count_attempt w.processed r (λ x. refl) e)
  ]

  -- A message that may not be begun leaves everything as it is.
  pub begin_refused : (begin id sender auth w).0 ≡ ok false → (begin id sender auth w).1 ≡ w
  unfolding begin
  begin_refused h = ground arith

-- Either the handling is begun and an attempt is used up, or nothing happens.
begin-cases :
    (id sender : Text) (auth : AuthReason) (w : World)
    → (((begin id sender auth w).0 ≡ ok true)
        × (attempts_of (row id w.processed) < 3)
        × (attempts_of (row id (begin id sender auth w).1.processed)
            ≡ attempts_of (row id w.processed) + 1))
      ⊎ (begin id sender auth w ≡ (ok false, w))
begin-cases id sender auth w =
    elim (Bool-cases (is_open (row id w.processed) && ltb (attempts_of (row id w.processed)) 3)) [
      | inl grants ↦
          let begun' = begin_exact id sender auth w ∙ ap ok grants in
          inl (begun', ground arith, (begin_counts id sender auth w begun').0)
      | inr refuses ↦
          let refused = begin_exact id sender auth w ∙ ap ok refuses in
          inr (λ i. (refused i, begin_refused id sender auth w refused i))
    ]

-- Begin the same message again and again, and count how often it is granted.
pub begin_times : ℕ → Text → Text → AuthReason → World → ℕ × World
begin_times zero id sender auth w = (0, w)
begin_times (suc n) id sender auth w =
    let (r, w') = begin id sender auth w in
    let (k, w'') = begin_times n id sender auth w' in (if granted r then suc k else k, w'')

-- However often a message comes back before it is finished, its handling is begun three times at
-- most, the earlier attempts included.
pub begin_at_most_three :
    (n : ℕ) (id sender : Text) (auth : AuthReason) (w : World)
    → attempts_of (row id w.processed) ≤ 3
    → (begin_times n id sender auth w).0 + attempts_of (row id w.processed) ≤ 3
unfolding begin_times
begin_at_most_three zero id sender auth w h = omega arith
begin_at_most_three (suc n) id sender auth w h = elim (begin-cases id sender auth w) [
  | inl (grants, room, one_more) ↦
      rw grants (
        omega
          (arith, begin_at_most_three n id sender auth (begin id sender auth w).1 (omega arith)))
  | inr same ↦ rw same (begin_at_most_three n id sender auth w h)
]

-- A message that was begun and then finished, with an outcome other than `in_progress`, is not begun
-- again, and nothing changes.
pub begin-finalize :
    (id sender : Text) (auth : AuthReason) (outcome : Outcome) (job_id : Option Text)
    (operation : Option Handling) (w : World)
    → is_some (row id w.processed) ≡ true
    → is_in_progress outcome ≡ false
    → let w' = (finalize id outcome job_id operation w).1 in
      begin id sender auth w' ≡ (ok false, w')
unfolding begin finalize
begin-finalize id sender auth outcome job_id operation w known finished =
    elim (Option-cases (row id w.processed)) [
      | inl e ↦ absurd (ground arith)
      | inr (r, e) ↦
          ground (
            arith,
            row-update id (finish outcome job_id operation w.now) w.processed r (λ x. refl) e,
          )
    ]
