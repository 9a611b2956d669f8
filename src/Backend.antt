-- ===== src/Backend.antt =====
-- The records of app/diarisation/client.py and app/github_raginator/client.py that the program reads.
-- The clients themselves are in the modules below.
pub mod Json
pub mod Http
pub mod Retrying
pub mod Readers
pub mod Diarisation
pub mod Answers
pub mod Ollama
pub mod Github
use group_assessment_agent.Base.{ℕ, Text, codes, Option, ◌++◌}

pub record TranscriptChunk : Type 0 where
  pub chunk_id : Text
  pub meeting_id : Text
  pub meeting_title : Text
  pub meeting_date : Text
  pub speaker : Text
  pub text : Text
  pub start_ts : Text
  pub end_ts : Text

-- `TranscriptChunk.citation`.
unfoldable pub citation : TranscriptChunk → Text
citation c =
    codes "["
    ++ (c.meeting_title
        ++ (codes ", "
            ++ (c.meeting_date
                ++ (codes ", "
                    ++ (c.start_ts
                        ++ (codes "-"
                            ++ (c.end_ts ++ (codes ", " ++ (c.speaker ++ codes "]")))))))))

pub record RepoSummary : Type 0 where
  pub id : ℕ
  pub github_url : Text
  pub group_name : Option Text
