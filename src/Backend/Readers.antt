-- ===== src/Backend/Readers.antt =====
-- The records of app/diarisation/client.py, and how its methods read them from a decoded reply. The
-- values stay JSON, as the client checks none.
use group_assessment_agent.Base.{codes, List}
use group_assessment_agent.Exec.{Result, ok}
use group_assessment_agent.Backend.Json.{
  Json, array, no_items, Malformed, ◌>>=◌, subscript, get, comprehension,
}

pub record GroupSummary : Type 0 where
  pub id : Json
  pub name : Json

pub record MemberSummary : Type 0 where
  pub id : Json
  pub name : Json

pub record GroupDetail : Type 0 where
  pub id : Json
  pub name : Json
  pub members : List MemberSummary

pub record MeetingSummary : Type 0 where
  pub id : Json
  pub group_id : Json
  pub date : Json

pub record RawFileSummary : Type 0 where
  pub id : Json
  pub file_name : Json
  pub human_name : Json
  pub type : Json

pub record AttendeeSummary : Type 0 where
  pub id : Json
  pub name : Json

pub record ChunkJson : Type 0 where
  pub chunk_id : Json
  pub meeting_id : Json
  pub meeting_title : Json
  pub meeting_date : Json
  pub speaker : Json
  pub text : Json
  pub start_ts : Json
  pub end_ts : Json

unfoldable pub member : Json → Result Malformed MemberSummary
unfolding ◌>>=◌ subscript
member m = do
  id ← subscript m (codes "id")
  name ← subscript m (codes "name")
  ok (record { id = id; name = name })

unfoldable pub group : Json → Result Malformed GroupSummary
unfolding ◌>>=◌ subscript
group g = do
  id ← subscript g (codes "id")
  name ← subscript g (codes "name")
  ok (record { id = id; name = name })

unfoldable pub groups : Json → Result Malformed (List GroupSummary)
unfolding comprehension group
groups reply = comprehension group reply

unfoldable pub group_detail : Json → Result Malformed GroupDetail
unfolding ◌>>=◌ subscript get comprehension member
group_detail reply = do
  id ← subscript reply (codes "id")
  name ← subscript reply (codes "name")
  listed ← get reply (codes "members") (array no_items)
  members ← comprehension member listed
  ok (record { id = id; name = name; members = members })

unfoldable pub meeting : Json → Result Malformed MeetingSummary
unfolding ◌>>=◌ subscript
meeting reply = do
  id ← subscript reply (codes "id")
  group_id ← subscript reply (codes "group_id")
  date ← subscript reply (codes "date")
  ok (record { id = id; group_id = group_id; date = date })

unfoldable pub raw_file : Json → Result Malformed RawFileSummary
unfolding ◌>>=◌ subscript
raw_file reply = do
  id ← subscript reply (codes "id")
  file_name ← subscript reply (codes "file_name")
  human_name ← subscript reply (codes "human_name")
  kind ← subscript reply (codes "type")
  ok (record { id = id; file_name = file_name; human_name = human_name; type = kind })

unfoldable pub attendee : Json → Result Malformed AttendeeSummary
unfolding ◌>>=◌ subscript
attendee reply = do
  id ← subscript reply (codes "id")
  name ← subscript reply (codes "name")
  ok (record { id = id; name = name })

unfoldable pub chunk : Json → Result Malformed ChunkJson
unfolding ◌>>=◌ subscript
chunk r = do
  chunk_id ← subscript r (codes "chunk_id")
  meeting_id ← subscript r (codes "meeting_id")
  meeting_title ← subscript r (codes "meeting_title")
  meeting_date ← subscript r (codes "meeting_date")
  speaker ← subscript r (codes "speaker")
  text ← subscript r (codes "text")
  start_ts ← subscript r (codes "start_ts")
  end_ts ← subscript r (codes "end_ts")
  ok (record {
    chunk_id = chunk_id;
    meeting_id = meeting_id;
    meeting_title = meeting_title;
    meeting_date = meeting_date;
    speaker = speaker;
    text = text;
    start_ts = start_ts;
    end_ts = end_ts;
  })

unfoldable pub chunks : Json → Result Malformed (List ChunkJson)
unfolding ◌>>=◌ get comprehension chunk
chunks reply = do
  results ← get reply (codes "results") (array no_items)
  comprehension chunk results
