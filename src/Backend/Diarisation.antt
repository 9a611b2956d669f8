-- ===== src/Backend/Diarisation.antt =====
-- The endpoints of `DiarisationClient` of app/diarisation/client.py: which request each makes and what
-- it reads from the reply.
use group_assessment_agent.Base.{ℕ, Text, codes, digits, Option, none, some, List, [], ◌++◌}
use group_assessment_agent.Exec.{Result, ok, raised, pure, raise, ◌>>=◌}
use group_assessment_agent.Backend.Json.{Json, Malformed, value_error, subscript}
use group_assessment_agent.Backend.Http.{
  Body, no_body, username, meeting_date, file, member, names, search, Request, Response, Call,
  Server, Failure, malformed, classify,
}
use group_assessment_agent.Backend.Http
use group_assessment_agent.Backend.Retrying.{Retrying, request}
use group_assessment_agent.Backend.Readers

abbrev pub decoded : Option Json → Result Malformed Json
decoded none = raised value_error
decoded (some v) = ok v

abbrev pub reads : {A : Type 0} → Result Malformed A → Call A
reads (ok a) = pure a
reads (raised e) = raise (malformed e)

-- `client` stands for an instance with its parameters: the server, tenacity, the decoder of JSON
-- texts, and `max_retry_attempts`.
module _ (server : Server) (retrying : Retrying) (json : Text → Option Json)
    (max_attempts : ℕ) where
  -- A request whose reply is decoded.
  unfoldable pub exchange : Http.Method → Text → Option Text → Body → Call Json
  unfolding ◌>>=◌ request
  exchange method path token body = do
    resp ←
        request retrying server classify max_attempts
          (record { method = method; path = path; token = token; body = body })
    reads (decoded (json resp.content))

  abbrev pub group_path : ℕ → Text → Text
  group_path group_id rest = codes "/groups/" ++ (digits group_id ++ rest)

  abbrev pub meeting_path : ℕ → ℕ → Text → Text
  meeting_path group_id meeting_id rest =
      group_path group_id (codes "/meetings/" ++ (digits meeting_id ++ rest))

  unfoldable pub login : ℕ → Call Json
  unfolding ◌>>=◌ exchange subscript
  login user_id = do
    reply ← exchange Http.post (codes "/users/login") none (username (digits user_id))
    reads (subscript reply (codes "access_token"))

  unfoldable pub list_groups : Text → Call (List Readers.GroupSummary)
  unfolding ◌>>=◌ exchange Readers.groups
  list_groups token = do
    reply ← exchange Http.get (codes "/groups/") (some token) no_body
    reads (Readers.groups reply)

  unfoldable pub get_group : Text → ℕ → Call Readers.GroupDetail
  unfolding ◌>>=◌ exchange Readers.group_detail
  get_group token group_id = do
    reply ← exchange Http.get (group_path group_id []) (some token) no_body
    reads (Readers.group_detail reply)

  -- The date as `isoformat` writes it.
  unfoldable pub create_meeting : Text → ℕ → Text → Call Readers.MeetingSummary
  unfolding ◌>>=◌ exchange Readers.meeting
  create_meeting token group_id date = do
    reply ←
        exchange Http.post (group_path group_id (codes "/meetings/")) (some token)
          (meeting_date date)
    reads (Readers.meeting reply)

  unfoldable pub upload_file : Text → ℕ → ℕ → Text → List ℕ → Call Readers.RawFileSummary
  unfolding ◌>>=◌ exchange Readers.raw_file
  upload_file token group_id meeting_id filename content = do
    reply ←
        exchange Http.post (meeting_path group_id meeting_id (codes "/upload/")) (some token)
          (file filename content)
    reads (Readers.raw_file reply)

  unfoldable pub add_attendee : Text → ℕ → ℕ → ℕ → Call Readers.AttendeeSummary
  unfolding ◌>>=◌ exchange Readers.attendee
  add_attendee token group_id meeting_id member_id = do
    reply ←
        exchange Http.post (meeting_path group_id meeting_id (codes "/attendees")) (some token)
          (member member_id)
    reads (Readers.attendee reply)

  -- The `source` is sent where there is one.
  unfoldable pub resolve_aliases : Text → ℕ → List Text → Option Text → Call Json
  unfolding exchange
  resolve_aliases token group_id labels source =
      exchange Http.post (group_path group_id (codes "/aliases/resolve")) (some token)
        (names labels source)

  unfoldable pub search_transcripts : Text → ℕ → Text → Option ℕ → Call (List Readers.ChunkJson)
  unfolding ◌>>=◌ exchange Readers.chunks
  search_transcripts token group_id query meeting_id = do
    reply ←
        exchange Http.post (group_path group_id (codes "/transcripts/search")) (some token)
          (search query meeting_id)
    reads (Readers.chunks reply)
