-- ===== src/Clarifications.antt =====
-- `PendingClarificationStore` of app/jobs/store.py. Every caller asks for the field `group_hint`,
-- so the column `expected_field` is left out.
pub mod Laws
use group_assessment_agent.Base.{
  Text, ◌==◌, Bool, not, Option, List, [], ◌∷◌, ◌++◌, find, select, update_where, is_some,
  if◌then◌else◌, ◌≡◌, refl, none, some, arith, ==_iff, ==_refl, ◌≢◌, true, false,
}
use group_assessment_agent.Exec.{ok, gets}
use group_assessment_agent.Messages.{Question}
use group_assessment_agent.World.{World, Action, PendingClarification}

abbrev pub has_job : Text → PendingClarification → Bool
has_job job_id c = c.job_id == job_id

-- INSERT … ON CONFLICT(job_id) DO UPDATE.
unfoldable pub put : Text → Question → List Text → Action (Unit {0})
put job_id question options w =
    let replace = λ (c : PendingClarification). record c {
      question = question;
      options = options;
      created_at = w.now;
    } in
    let rows = w.clarifications in
    (
      ok tt,
      record w {
        clarifications =
            if is_some (find (has_job job_id) rows)
            then update_where (has_job job_id) replace rows
            else rows
              ++ (record {
                job_id = job_id;
                question = question;
                options = options;
                created_at = w.now;
              }
                  ∷ []);
      },
    )

unfoldable pub get : Text → Action (Option PendingClarification)
unfolding gets
get job_id = gets (λ w. find (has_job job_id) w.clarifications)

unfoldable pub delete : Text → Action (Unit {0})
delete job_id w =
    (ok tt, record w { clarifications = select (λ c. not (has_job job_id c)) w.clarifications })
