-- ===== src/Threads/Ownership.antt =====
-- A mail thread leads only to jobs of its sender.
use group_assessment_agent.Base.{
  Text, lower, ◌==◌, eq_of_==, ◌≡◌, refl, ap, Bool, ◌&&◌, Option, none, some, List, [], ◌∷◌, select,
  find, latest_by, find-Mem, latest-select, ◌++◌, find_all, arith, Bool-cases, inl, inr,
}
use mathlib.Core.List.{Mem}
use group_assessment_agent.Exec.{ok, found_or, pure, ◌>>=◌}
use group_assessment_agent.Jobs.{Job}
use group_assessment_agent.World.{World, Action, MessageLink}
use group_assessment_agent.Mailbox.{EmailMessage}
use group_assessment_agent.JobStore.{
  has_id, responded, get_owned, owned_by, linked_job, joined, get_by_response_message_id,
  get_by_last_response_message_id,
}
use group_assessment_agent.Threads.{
  by_reference, first_match, by_mention, id_of, match, referenced_message_ids, only_one,
}
use group_assessment_agent.Commands.{job_id_pattern}

-- The job is in the table and belongs to the sender.
pub record IsTheirs (sender : Text) (w : World) (j : Job) : Type 0 where
  pub row : Mem j w.jobs
  pub owned : lower j.sender_email ≡ lower sender

abbrev AllTheirs : Text → World → Option Job → Type 0
AllTheirs sender w none = Unit
AllTheirs sender w (some j) = IsTheirs sender w j

-- The action only reads, and finds nothing but jobs of the sender.
record Finds (sender : Text) (m : Action (Option Job)) : Type 0 where
  at : (w : World) → (o : Option Job) × (m w ≡ (ok o, w)) × AllTheirs sender w o

or-Finds :
    (sender : Text) (m n : Action (Option Job))
    → Finds sender m
    → Finds sender n
    → Finds sender (m >>= λ j. found_or j n)
unfolding ◌>>=◌ found_or
or-Finds sender m n hm hn = record { at = λ w. go w (hm.at w) }
  where
    go :
        (w : World)
        → (o : Option Job) × (m w ≡ (ok o, w)) × AllTheirs sender w o
        → (o : Option Job) × ((m >>= λ j. found_or j n) w ≡ (ok o, w)) × AllTheirs sender w o
    go w (none, e, h) = let (o, e', h') = hn.at w in (o, rw e e', h')
    go w (some j, e, h) = (some j, rw e refl, h)

owned-AllTheirs :
    (sender : Text) (w : World) (p : Job → Bool)
    → AllTheirs sender w (owned_by sender (find p w.jobs))
unfolding owned_by
owned-AllTheirs sender w p = go (find p w.jobs) (λ j e. find-Mem p w.jobs j e)
  where
    go :
        (o : Option Job)
        → ((j : Job) → o ≡ some j → Mem j w.jobs)
        → AllTheirs sender w (owned_by sender o)
    go none h = tt
    go (some j) h = elim (Bool-cases (lower j.sender_email == lower sender)) [
      | inl same ↦
          rw same
            (record { row = h j refl; owned = eq_of_== (lower j.sender_email) (lower sender) same })
      | inr other ↦ rw other tt
    ]

get_owned-Finds : (job_id sender : Text) → Finds sender (get_owned job_id sender)
unfolding get_owned
get_owned-Finds job_id sender = record {
  at = λ w. (
    owned_by sender (find (has_id job_id) w.jobs),
    refl,
    owned-AllTheirs sender w (has_id job_id),
  );
}

joined-AllTheirs :
    (sender : Text) (w : World) (o : Option MessageLink)
    → AllTheirs sender w (joined sender w.jobs o)
unfolding linked_job
joined-AllTheirs sender w none = tt
joined-AllTheirs sender w (some l) = go l.job_id
  where
    go :
        (id : Option Text)
        → AllTheirs sender w
            (elim id [ none ↦ none | some job_id ↦ owned_by sender (find (has_id job_id) w.jobs) ])
    go none = tt
    go (some job_id) = owned-AllTheirs sender w (has_id job_id)

response-Finds : (ref sender : Text) → Finds sender (get_by_response_message_id ref sender)
unfolding get_by_response_message_id
response-Finds ref sender = record { at = λ w. (_, refl, joined-AllTheirs sender w _) }

last_response-Finds :
    (ref sender : Text) → Finds sender (get_by_last_response_message_id ref sender)
unfolding get_by_last_response_message_id
last_response-Finds ref sender = record { at = λ w. (_, refl, theirs w _ (λ j e. e)) }
  where
    p : Job → Bool
    p j = responded ref j.last_response_message_id && j.sender_email == sender

    theirs :
        (w : World) (o : Option Job)
        → ((j : Job) → o ≡ some j → latest_by (λ k. k.created_at) (select p w.jobs) ≡ some j)
        → AllTheirs sender w o
    theirs w none h = tt
    theirs w (some j) h =
        let (holds, row) = latest-select (λ k. k.created_at) p w.jobs j (h j refl) in
        let same : j.sender_email ≡ sender = eq_of_== j.sender_email sender (ground arith) in
        record { row = row; owned = ap lower same }

reference-Finds : (sender ref : Text) → Finds sender (by_reference sender ref)
unfolding by_reference
reference-Finds sender ref =
    or-Finds sender _ _ (response-Finds ref sender) (last_response-Finds ref sender)

none-Finds : (sender : Text) → Finds sender (pure none)
unfolding pure
none-Finds sender = record { at = λ w. (none, refl, tt) }

first_match-Finds : (sender : Text) (refs : List Text) → Finds sender (first_match sender refs)
unfolding first_match
first_match-Finds sender [] = none-Finds sender
first_match-Finds sender (ref ∷ refs) =
    or-Finds sender _ _ (reference-Finds sender ref) (first_match-Finds sender refs)

mention-Finds : (sender : Text) (o : Option Text) → Finds sender (by_mention sender o)
mention-Finds sender none = none-Finds sender
mention-Finds sender (some job_id) = get_owned-Finds job_id sender

-- A message is matched only to a job that is in the table and that belongs to its sender, whichever
-- of the headers, the subject and the body names it; and matching changes nothing.
pub match-IsTheirs :
    (msg : EmailMessage) (sender : Text) (w : World) (id : Text)
    → (match msg sender w).0 ≡ ok (some id)
    → ((j : Job) × (j.job_id ≡ id) × IsTheirs sender w j) × ((match msg sender w).1 ≡ w)
unfolding match
match-IsTheirs msg sender w id h =
    go ((first_match-Finds sender (referenced_message_ids msg.in_reply_to msg.references)).at w)
  where
    Theirs : Type 0
    Theirs = ((j : Job) × (j.job_id ≡ id) × IsTheirs sender w j) × ((match msg sender w).1 ≡ w)

    mentioned : Option Text
    mentioned =
        only_one (find_all job_id_pattern msg.subject ++ find_all job_id_pattern msg.body_text)

    last : (o : Option Job) → AllTheirs sender w o → match msg sender w ≡ (ok (id_of o), w) → Theirs
    last none th e = absurd (ground arith)
    last (some j) th e = ((j, ground arith, th), ground arith)

    go :
        (o : Option Job) × (first_match sender
              (referenced_message_ids msg.in_reply_to msg.references)
              w
            ≡ (ok o, w))
          × AllTheirs sender w o
        → Theirs
    go (some j, e, th) = last (some j) th (rw e refl)
    go (none, e, th) =
        let (o, e', th') = (mention-Finds sender mentioned).at w in last o th' (rw e (rw e' refl))
