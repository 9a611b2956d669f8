-- ===== src/JobStore.antt =====
-- `JobStore` of app/jobs/store.py over the `jobs` and `message_links` tables.
pub mod Evolution
pub mod Numbering
pub mod Queue
pub mod Transitions
use group_assessment_agent.Base.{
  ℕ, zero, suc, ◌+◌, Text, codes, lower, starts_with, ◌==◌, pad4, Bool, true, false, ◌&&◌, Option,
  none, some, List, [], ◌∷◌, ◌++◌, length, select, find, update_where, exists, order_by, latest_by,
  if◌then◌else◌, is_some,
}
use group_assessment_agent.Exec.{ok, raised, pure, raise, gets, ◌>>=◌}
use group_assessment_agent.Jobs.{
  JobState, received, queued, processing, completed, failed, cancelled, same_state, Operation,
  Field, Job, may_become, assign_all,
}
use group_assessment_agent.Messages.{Error, invalid_transition, job_id_allocation, unexpected}
use group_assessment_agent.World.{World, Action, MessageLink}

abbrev pub has_id : Text → Job → Bool
has_id job_id j = j.job_id == job_id

unfoldable pub get : Text → Action (Option Job)
unfolding gets
get job_id = gets (λ w. find (has_id job_id) w.jobs)

-- `DIAR-YYYY-MMDD-`.
unfoldable pub id_prefix : Text → Text
id_prefix today = codes "DIAR-" ++ (today ++ codes "-")

-- `SELECT COUNT(*) … WHERE job_id LIKE prefix%`; LIKE does not tell upper from lower case.
unfoldable pub count_today : Text → List Job → ℕ
count_today prefix jobs = length (select (λ j. starts_with (lower j.job_id) (lower prefix)) jobs)

-- The row before the initial fields are written: the defaults of the columns.
abbrev pub blank_job : Text → ℕ → Text → Operation → Text → ℕ → Job
blank_job sender user message operation job_id now = record {
  job_id = job_id;
  sender_email = sender;
  backend_user_id = user;
  source_message_id = message;
  status = received;
  operation = operation;
  group_hint = none;
  resolved_group_id = none;
  resolved_group_name = none;
  attachment_filename = none;
  attachment_storage_path = none;
  meeting_date = none;
  meeting_date_source = none;
  speakers = [];
  backend_meeting_id = none;
  backend_raw_file_id = none;
  resolved_attendees = [];
  unresolved_speakers = [];
  transcript_focus = none;
  github_focus = none;
  trello_focus = none;
  error = none;
  retry_count = 0;
  created_at = now;
  started_at = none;
  completed_at = none;
  last_response_message_id = none;
  in_reply_to_message_id = none;
}

unfoldable pub new_job : Text → ℕ → Text → Operation → List Field → Text → ℕ → Job
new_job sender user message operation fields job_id now =
    assign_all fields (blank_job sender user message operation job_id now)

-- The rounds of `for attempt in range(10)`: a job id that is taken makes the INSERT fail.
unfoldable pub allocate : ℕ → ℕ → Text → (Text → ℕ → Job) → Action Text
allocate zero attempt prefix make w = (raised job_id_allocation, w)
allocate (suc rounds) attempt prefix make w =
    let job_id = prefix ++ pad4 (count_today prefix w.jobs + 1 + attempt) in
    let retry = allocate rounds (attempt + 1) prefix make w in
    if is_some (find (has_id job_id) w.jobs)
    then retry
    else (ok job_id, record w { jobs = w.jobs ++ (make job_id w.now ∷ []) })

-- `self.get(job_id)` for a job that the caller takes to exist.
unfoldable pub existing : Option Job → Action Job
existing none = raise unexpected
existing (some j) = pure j

unfoldable pub create_job : Text → ℕ → Text → Operation → List Field → Action Job
unfolding get existing ◌>>=◌
create_job sender user message operation fields = do
  today ← gets (λ w. w.today)
  job_id ← allocate 10 0 (id_prefix today) (new_job sender user message operation fields)
  job ← get job_id
  existing job

-- A job of the sender, and `None` for a job of somebody else as for one that is not there.
unfoldable pub owned_by : Text → Option Job → Option Job
owned_by sender none = none
owned_by sender (some j) = if lower j.sender_email == lower sender then some j else none

unfoldable pub get_owned : Text → Text → Action (Option Job)
unfolding gets owned_by
get_owned job_id sender = gets (λ w. owned_by sender (find (has_id job_id) w.jobs))

unfoldable pub update : Text → List Field → Action (Unit {0})
update job_id fields w =
    (ok tt, record w { jobs = update_where (has_id job_id) (assign_all fields) w.jobs })

-- The columns that `set_status` writes: the state, the extra fields, and the times of the start
-- and of the end.
unfoldable pub stamp : JobState → ℕ → Job → Job
stamp processing now j = record j { started_at = some now }
stamp completed now j = record j { completed_at = some now }
stamp failed now j = record j { completed_at = some now }
stamp cancelled now j = record j { completed_at = some now }
stamp _ now j = j

unfoldable pub enter : JobState → List Field → ℕ → Job → Job
unfolding stamp
enter new fields now j = let j' = assign_all fields j in stamp new now (record j' { status = new })

unfoldable pub set_status : Text → JobState → List Field → Action (Unit {0})
set_status job_id new fields w = elim (find (has_id job_id) w.jobs) [
  | none ↦ (raised (invalid_transition job_id), w)
  | some j ↦
      if may_become j.status new
      then (ok tt, record w { jobs = update_where (has_id job_id) (enter new fields w.now) w.jobs })
      else (raised (invalid_transition job_id), w)
]

abbrev pub responded : Text → Option Text → Bool
responded message_id none = false
responded message_id (some m) = m == message_id

unfoldable pub get_by_last_response_message_id : Text → Text → Action (Option Job)
unfolding gets
get_by_last_response_message_id message_id sender = gets (λ w.
    latest_by (λ j. j.created_at)
      (select (λ j. responded message_id j.last_response_message_id && j.sender_email == sender)
        w.jobs))

-- The job that a link names, if it is the sender's: one row of the join.
unfoldable pub linked_job : Text → List Job → MessageLink → Option Job
unfolding owned_by
linked_job sender jobs l = elim l.job_id [
  | none ↦ none
  | some job_id ↦ owned_by sender (find (has_id job_id) jobs)
]

abbrev pub joined : Text → List Job → Option MessageLink → Option Job
joined sender jobs none = none
joined sender jobs (some l) = linked_job sender jobs l

unfoldable pub get_by_response_message_id : Text → Text → Action (Option Job)
unfolding gets linked_job
get_by_response_message_id message_id sender = gets (λ w. joined sender w.jobs (
    latest_by (λ l. l.created_at)
      (select (λ l. l.message_id == message_id && is_some (linked_job sender w.jobs l)) w.links)))

unfoldable pub list_queued : Action (List Job)
unfolding gets
list_queued =
    gets (λ w. order_by (λ j. j.created_at) (select (λ j. same_state j.status queued) w.jobs))
