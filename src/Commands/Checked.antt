-- ===== src/Commands/Checked.antt =====
-- What a validated command is known to satisfy, whatever the model has claimed.
use group_assessment_agent.Base.{
  ℕ, ◌≤◌, Text, lower, ◌≡◌, refl, true, false, Option, none, some, or_else, List, [], ◌∷◌, select,
  find, find-Mem, Mem-select, arith, Option-cases, inl, inr,
}
use mathlib.Core.List.{Mem, mem-cons_self}
use group_assessment_agent.Exec.{Result, ok, raised}
use group_assessment_agent.Jobs.{Job, submit_transcript}
use group_assessment_agent.Messages.{Error}
use group_assessment_agent.World.{World}
use group_assessment_agent.JobStore.{has_id, get_owned, owned_by}
use group_assessment_agent.JobStore.Queue.{get_owned_exact}
use group_assessment_agent.Commands.{ParsedCommand}
use group_assessment_agent.Commands.Validation.{
  AttachmentMeta, ValidationContext, ValidatedCommand, is_audio, is_vtt, named, claimed, by_type,
  resolve, rechecked, submission, submission_from, validate_submit_transcript,
  validate_job_reference_operation, reference_to, truthy,
}

by_type-Mem :
    (l vtts : List AttachmentMeta) (a : AttachmentMeta) → by_type l vtts ≡ ok a → Mem a vtts
by_type-Mem l [] a h = absurd (ground arith)
by_type-Mem l (x ∷ []) a h = let same : a ≡ x = ground arith in rw same mem-cons_self
by_type-Mem l (x ∷ y ∷ more) a h = absurd (ground arith)

resolve-Mem :
    (claim : Option Text) (l : List AttachmentMeta) (a : AttachmentMeta)
    → resolve (claimed claim l) l ≡ ok a
    → Mem a l
resolve-Mem claim l a h = go claim h
  where
    by_kind : by_type l (select (λ a. is_vtt a.filename) l) ≡ ok a → Mem a l
    by_kind e = Mem-select (λ a. is_vtt a.filename) l a (by_type-Mem l _ a e)

    go : (claim : Option Text) → resolve (claimed claim l) l ≡ ok a → Mem a l
    go none e = by_kind e
    go (some []) e = by_kind e
    go (some (c ∷ cs)) e = elim (Option-cases (find (named (c ∷ cs)) l)) [
      | inl missing ↦ by_kind (ground arith)
      | inr (x, found) ↦ find-Mem (named (c ∷ cs)) l a (ground arith)
    ]

-- The attachment is one that arrived, it is a transcript by its real name, and it is small enough.
pub record IsAccepted (ctx : ValidationContext) (a : AttachmentMeta) : Type 0 where
  pub arrived : Mem a ctx.attachments
  pub transcript : is_vtt a.filename ≡ true
  pub not_audio : is_audio a.filename ≡ false
  pub small : a.size_bytes ≤ ctx.max_bytes

rechecked-ok :
    (max : ℕ) (r : Result Error AttachmentMeta) (a : AttachmentMeta)
    → rechecked max r ≡ ok a
    → (r ≡ ok a) × (is_vtt a.filename ≡ true) × (is_audio a.filename ≡ false) × (a.size_bytes ≤ max)
rechecked-ok max (raised e) a h = absurd (ground arith)
rechecked-ok max (ok b) a h = ground arith

submission-ok :
    (cmd : ParsedCommand) (r : Result Error AttachmentMeta) (v : ValidatedCommand)
    → submission cmd r ≡ ok v
    → (a : AttachmentMeta) × (r ≡ ok a)
      × (v.attachment ≡ some a)
      × (v.operation ≡ submit_transcript)
submission-ok cmd (raised e) v h = absurd (ground arith)
submission-ok cmd (ok a) v h = (a, refl, ground arith, ground arith)

accepted :
    (cmd : ParsedCommand) (ctx : ValidationContext) (v : ValidatedCommand) (l : List AttachmentMeta)
    → l ≡ ctx.attachments
    → submission_from cmd ctx.max_bytes l ≡ ok v
    → (a : AttachmentMeta) × (v.attachment ≡ some a) × IsAccepted ctx a
accepted cmd ctx v [] e h = absurd (ground arith)
accepted cmd ctx v (x ∷ xs) e h =
    let l = x ∷ xs in
    let (a, found, kept, _) =
      submission-ok cmd (rechecked ctx.max_bytes (resolve (claimed cmd.attachment l) l)) v h in
    let (resolved, vtt, not_audio, small) =
      rechecked-ok ctx.max_bytes (resolve (claimed cmd.attachment l) l) a found in
    (
      a,
      kept,
      record {
        arrived = rw (← e) (resolve-Mem cmd.attachment l a resolved);
        transcript = vtt;
        not_audio = not_audio;
        small = small;
      },
    )

-- A submission that is validated carries an attachment that arrived with the message, is a
-- transcript and no audio by its real name, and is within the size limit.
pub validated_submission :
    (cmd : ParsedCommand) (ctx : ValidationContext) (v : ValidatedCommand)
    → validate_submit_transcript cmd ctx ≡ ok v
    → (a : AttachmentMeta) × (v.attachment ≡ some a) × IsAccepted ctx a
unfolding validate_submit_transcript
validated_submission cmd ctx v h = accepted cmd ctx v ctx.attachments refl h

reference-ok :
    (cmd : ParsedCommand) (sender : Text) (id : Option Text) (w : World) (v : ValidatedCommand)
    → (reference_to cmd sender id w).0 ≡ ok v
    → (job_id : Text) × (j : Job) × (v.job_id ≡ some job_id)
      × (v.operation ≡ cmd.operation)
      × (find (has_id job_id) w.jobs ≡ some j)
      × (lower j.sender_email ≡ lower sender)
unfolding validate_job_reference_operation
reference-ok cmd sender none w v h = absurd (ground arith)
reference-ok cmd sender (some job_id) w v h =
    go (owned_by sender (find (has_id job_id) w.jobs)) (unfold get_owned in refl)
  where
    go :
        (o : Option Job)
        → get_owned job_id sender w ≡ (ok o, w)
        → (id : Text) × (j : Job) × (v.job_id ≡ some id)
          × (v.operation ≡ cmd.operation)
          × (find (has_id id) w.jobs ≡ some j)
          × (lower j.sender_email ≡ lower sender)
    go none eq = absurd (ground arith)
    go (some j) eq =
        let (found, owned) = (get_owned_exact job_id sender w j).0 eq in
        (job_id, j, ground arith, ground arith, found, owned)

-- A status, results or cancel command that is validated names a job of the sender, whether the
-- model or the thread has named it.
pub validated_reference :
    (cmd : ParsedCommand) (ctx : ValidationContext) (w : World) (v : ValidatedCommand)
    → (validate_job_reference_operation cmd ctx w).0 ≡ ok v
    → (job_id : Text) × (j : Job) × (v.job_id ≡ some job_id)
      × (v.operation ≡ cmd.operation)
      × (find (has_id job_id) w.jobs ≡ some j)
      × (lower j.sender_email ≡ lower ctx.sender_email)
unfolding validate_job_reference_operation
validated_reference cmd ctx w v h =
    reference-ok cmd ctx.sender_email (truthy (or_else (truthy cmd.job_id) ctx.thread_job_id)) w v h
