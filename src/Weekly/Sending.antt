-- ===== src/Weekly/Sending.antt =====
-- What the sending of the weekly reports hands to the mail provider.
use group_assessment_agent.Base.{
  ℕ, Text, ◌≡◌, refl, true, Bool-cases, Option, none, some, List, [], ◌∷◌, arith, inl, inr, select,
  Mem-select, select-holds, order_by, order_by-perm, starts_with, codes,
}
use mathlib.Core.List.{Mem, mem-cons_self, mem-cons_of_mem}
use mathlib.Core.List.Perm
use group_assessment_agent.Exec.{Result, for_each}
use group_assessment_agent.Exec.Steps.{Steps, IsPreorder, Steps-pure, Steps-bind, Steps-catch}
use group_assessment_agent.Jobs.{FilePath}
use group_assessment_agent.Messages.{Error, weekly_send_failed}
use group_assessment_agent.World.{World, Action, OutboxMessage, Delivery, ReportStatus, sent}
use group_assessment_agent.Outside.{Outside, ask}
use group_assessment_agent.Outbox.{list_pending, mark_sent, mark_failed, is_pending}
use group_assessment_agent.FileStore.{read_bytes}
use group_assessment_agent.ReportStore.{set_status}
use group_assessment_agent.Pipeline.Flush.{read_all, record_delivery, hand_over}
use group_assessment_agent.Weekly.Run

-- The provider's part of the state may grow by the mail of one message.
pub data Sent (P : OutboxMessage → Type 0) : List Delivery → List Delivery → Type 0 where
  same : {l : List Delivery} → Sent P l l
  more :
      {l l' : List Delivery} (m : OutboxMessage)
      → P m
      → Sent P l l'
      → Sent P l (record { outbox_id = m.id; to = m.to_email; mail = m.mail } ∷ l')

abbrev Sends : (OutboxMessage → Type 0) → World → World → Type 0
Sends P w w' = Sent P w.deliveries w'.deliveries

module _ {P : OutboxMessage → Type 0} where
  Sent-trans : {k l m : List Delivery} → Sent P k l → Sent P l m → Sent P k m
  Sent-trans p same = p
  Sent-trans p (more x h q) = more x h (Sent-trans p q)

  Sends-IsPreorder : IsPreorder (Sends P)
  Sends-IsPreorder = record { refl_at = λ w. same; trans_at = λ s t u p q. Sent-trans p q }

  nothing :
      {A : Type 0} {m : Action A}
      → ((w : World) → (m w).1.deliveries ≡ w.deliveries)
      → Steps (Sends P) m
  nothing h = record { at = λ w. rw (h w) same }

  ask-Sends : {A : Type 0} (f : ℕ → Result Error A) → Steps (Sends P) (ask f)
  unfolding ask
  ask-Sends f = nothing (λ w. refl)

  read-Sends : (p : FilePath) → Steps (Sends P) (read_bytes p)
  unfolding read_bytes
  read-Sends p = nothing (λ w. ground arith)

  sent-Sends : (id : ℕ) (message_id : Text) → Steps (Sends P) (mark_sent id message_id)
  unfolding mark_sent
  sent-Sends id message_id = nothing (λ w. ground arith)

  failed-Sends : (id : ℕ) (e : Error) → Steps (Sends P) (mark_failed id e)
  unfolding mark_failed
  failed-Sends id e = nothing (λ w. refl)

  status-Sends :
      (id : Text) (s : ReportStatus) (text : Option Text) (e : Option Error)
      → Steps (Sends P) (set_status id s text e)
  unfolding set_status
  status-Sends id s text e = nothing (λ w. refl)

  read_all-Sends : (l : List FilePath) → Steps (Sends P) (read_all l)
  unfolding read_all
  read_all-Sends [] = Steps-pure Sends-IsPreorder tt
  read_all-Sends (p ∷ l) = Steps-bind Sends-IsPreorder _ _ (read-Sends p) (λ _. read_all-Sends l)

  delivery-Sends : (m : OutboxMessage) → P m → Steps (Sends P) (record_delivery m)
  unfolding record_delivery
  delivery-Sends m h = record { at = λ w. more m h same }

  module _ (out : Outside) where
    hand_over-Sends : (m : OutboxMessage) → P m → Steps (Sends P) (hand_over out m)
    unfolding hand_over
    hand_over-Sends m h = Steps-bind Sends-IsPreorder _ _ (ask-Sends _) (λ id.
        Steps-bind Sends-IsPreorder _ _ (delivery-Sends m h) (λ _. Steps-pure Sends-IsPreorder id))

    send_report-Sends :
        (m : OutboxMessage) (id : Text) → P m → Steps (Sends P) (Run.send_report out m id)
    unfolding Run.send_report
    send_report-Sends m id h = Steps-bind Sends-IsPreorder _ _ (read_all-Sends m.attachments) (λ _.
        Steps-bind Sends-IsPreorder _ _ (hand_over-Sends m h) (λ provider_id.
          Steps-bind Sends-IsPreorder _ _ (sent-Sends m.id provider_id)
            (λ _. status-Sends id sent none none)))

-- A pending message of the outbox that belongs to a weekly report.
pub record FromReport (w : World) (m : OutboxMessage) : Type 0 where
  pub listed : Mem m w.outbox
  pub waiting : is_pending m.status ≡ true
  pub report_id : Text
  pub about : m.job_id ≡ some report_id
  pub weekly : starts_with report_id (codes "WEEKLY-") ≡ true

report_of-some :
    (o : Option Text) (id : Text)
    → Run.report_of o ≡ some id
    → (o ≡ some id) × (starts_with id (codes "WEEKLY-") ≡ true)
unfolding Run.report_of
report_of-some none id h = absurd (ground arith)
report_of-some (some []) id h = absurd (ground arith)
report_of-some (some (c ∷ cs)) id h = elim (Bool-cases (starts_with (c ∷ cs) (codes "WEEKLY-"))) [
  | inl yes_weekly ↦ let same : id ≡ c ∷ cs = ground arith in (rw same refl, rw same yes_weekly)
  | inr other ↦ absurd (ground arith)
]

module _ (out : Outside) (w : World) where
  each-Sends :
      (m : OutboxMessage)
      → Mem m w.outbox
      → is_pending m.status ≡ true
      → (o : Option Text) → Run.report_of m.job_id ≡ o
      → Steps (Sends (FromReport w)) (Run.send_if_report out m o)
  each-Sends m listed waiting none e = Steps-pure Sends-IsPreorder tt
  each-Sends m listed waiting (some id) e =
      let (about, weekly) = report_of-some m.job_id id e in
      Steps-catch Sends-IsPreorder _ _
        (send_report-Sends out m id (record {
          listed = listed;
          waiting = waiting;
          report_id = id;
          about = about;
          weekly = weekly;
        }))
        (λ x. failed-Sends m.id weekly_send_failed)

  loop-Sends :
      (l : List OutboxMessage)
      → ((m : OutboxMessage) → Mem m l → Mem m w.outbox × (is_pending m.status ≡ true))
      → Steps
          (Sends (FromReport w))
          (for_each l (λ m. Run.send_if_report out m (Run.report_of m.job_id)))
  unfolding for_each
  loop-Sends [] h = Steps-pure Sends-IsPreorder tt
  loop-Sends (m ∷ l) h =
      let (listed, waiting) = h m mem-cons_self in
      Steps-bind Sends-IsPreorder _ _ (each-Sends m listed waiting (Run.report_of m.job_id) refl)
        (λ _. loop-Sends l (λ x i. h x (mem-cons_of_mem m i)))

  -- The sending after a weekly run hands the provider only mails that belong to a weekly report and
  -- were pending when it began, each to its own recipient and with its own text, whatever the
  -- provider answers and whichever attachments are gone.
  pub flush_sends_reports : Sends (FromReport w) w (Run.flush_reports out w).1
  unfolding Run.flush_reports list_pending
  flush_sends_reports =
      (loop-Sends (order_by (λ m. m.created_at) (select (λ m. is_pending m.status) w.outbox))
          (λ m i.
            let j = (Perm.mem_iff (order_by-perm (λ m. m.created_at) _)).0 i in
            (Mem-select _ w.outbox m j, select-holds _ w.outbox m j))).at
        w
