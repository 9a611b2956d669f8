-- ===== src/Lib.antt =====
-- GroupAssessmentAgent reads the mails of project teams, lets a language model turn each one into a
-- command, checks the command, and answers by mail. Two threads share one SQLite database: the mail
-- thread polls the mailbox and sends the outbox, and the worker carries out the queued jobs.
--
-- The files and the code they model:
--   Base                shared helpers: tests, lists, texts, sorting, decimals, patterns
--   Jobs                app/jobs/models.py: the states, the transitions, the job
--   Jobs/Lifecycle      chains of transitions
--   Messages            the questions, reasons, mails, alerts and errors that the code makes
--   World               the tables of app/storage/db.py, the files and the provider's side as one record
--   Exec                methods that change the state and may raise; Exec/Steps: what every run of
--                       them does; Exec/Ensures and Raises: what holds when they return
--                       and what they raise
--   JobStore            `JobStore` of app/jobs/store.py
--   ProcessedStore      `ProcessedMessageStore` of app/jobs/store.py
--   Outbox              `Outbox` of app/jobs/store.py
--   Clarifications      `PendingClarificationStore` of app/jobs/store.py
--   FileStore           app/storage/attachments.py
--   Notifier            app/admin/notifier.py
--   Mailbox             the records of app/mail/base.py; Mailbox/Imap, Mailbox/Graph: how the clients of
--                       app/mail/imap_client.py and graph_client.py read a message, with
--                       Mailbox/Html, Mailbox/Addresses and Mailbox/Verdicts for its parts;
--                       Mailbox/Drafts: how graph_client.py sends; Mailbox/Fake: fake_client.py
--   Settings            app/settings.py; Settings/Startup: the start in app/main.py and
--                       app/diarisation/admin_client.py
--   Backend             the records that the clients return; Backend/Http and Backend/Retrying: one call
--                       and its attempts; Backend/Diarisation with Backend/Json and
--                       Backend/Readers: app/diarisation/client.py; Backend/Github:
--                       app/github_raginator/client.py; Backend/Ollama: app/llm/ollama_client.py
--   Auth                app/auth/authorisation.py
--   Commands            app/commands/schema.py; Commands/Validation: app/commands/validator.py;
--                       Commands/Parser: app/llm/command_parser.py
--   Groups              app/diarisation/group_matching.py
--   Threads             app/mail/thread_matcher.py
--   Vtt                 app/vtt/parser.py
--   Outside             the mail provider, the model, the backends and the libraries, as parameters
--   Handlers            app/handlers: status.py, results.py, cancel.py and help.py;
--                       Handlers/Submit: submit_transcript.py; Handlers/Assess: assess_query.py
--   ReportStore         app/reports/store.py and reply.py
--   Weekly              Weekly/Sources: app/reports/sources.py; Weekly/Workflow:
--                       app/reports/workflow.py; Weekly/Run: app/weekly_update.py;
--                       Weekly/Frame: what the actions on the tables do, the run does
--   Pipeline            app/pipeline.py; Pipeline/Message: one message and the poll;
--                       Pipeline/Flush: the sending of the outbox;
--                       Pipeline/Outcomes, Silence and Strangers: what becomes of one message;
--                       Pipeline/Idle: the jobs under a poll; Pipeline/Redelivery: a
--                       mail whose message id is linked already
--   Worker              app/jobs/worker.py
--   Safety              the life of the jobs under every action; Safety/Reach: the loops of app/main.py
--                       and the weekly runs
--   Tests               the theorems at concrete states
--
-- State and errors. The connections are in autocommit mode, so every statement commits on its own: a
-- method is a function from a state to a result or an error together with the state that it leaves,
-- and a method that raises half way leaves what it has written. A table is a list of rows in the order
-- of insertion. The clock is the field `now`; it stands still during one operation. A text is a list
-- of code points. Letters are the ASCII ones where the code calls lower or casefold, white space is the
-- ASCII white space, and `\d` and `\w` of the patterns match ASCII characters only, while Python's also
-- take the digits and letters of other scripts.
--
-- Bounds. Only the decimal digits of a number are written on fuel, which is the number itself and one
-- more, and Base/Decimal shows that this is enough. The ten rounds in which `create_job` looks for a free id and the
-- attempts of the command parser are counted in the source, and are numbers here too.
--
-- The outside. What a service or a library answers is a field of `Outside`, and may depend on how
-- often the outside has been asked; nothing is assumed of it. Two libraries are parameters with laws:
-- LangGraph (`Engine`), which runs the nodes of the workflow one after the other and merges what they
-- return, and tenacity (`Retrying`), which repeats a call that failed with a transient error while
-- attempts are left. The clients of Backend stand beside `Outside`, which sees their methods from the
-- caller's side: there an error is one of the two base classes, and a reply has the types that the
-- servers document. A draft of the Graph server that is no JSON or has no id counts as a refusal of the request.
--
-- Not modelled: the connections to the mail servers, the MIME parts of the mails that go out over SMTP,
-- the wording of the mails and of the command prompt, the settings that are floats or paths, and the
-- log. The two tasks of the collector's executor run one after the other, and
-- the loops of app/main.py and the weekly runs take turns as a whole; statements of different turns
-- are not interleaved.
pub mod Base
pub mod Exec
pub mod Jobs
pub mod Messages
pub mod World
pub mod JobStore
pub mod ProcessedStore
pub mod Outbox
pub mod Clarifications
pub mod FileStore
pub mod Notifier
pub mod Mailbox
pub mod Auth
pub mod Commands
pub mod Groups
pub mod Threads
pub mod Vtt
pub mod Backend
pub mod Settings
pub mod Outside
pub mod Handlers
pub mod ReportStore
pub mod Weekly
pub mod Pipeline
pub mod Worker
pub mod Safety
pub mod Tests
