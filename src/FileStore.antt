-- ===== src/FileStore.antt =====
-- app/storage/attachments.py over the stored files. A stored name is a fresh hexadecimal number
-- in front of what werkzeug's `secure_filename` leaves of the sender's name; both are given.
use group_assessment_agent.Base.{
  ℕ, Text, codes, ◌==◌, Bool, true, false, ◌&&◌, none, some, List, ◌∷◌, ◌++◌, find, select, not,
  is_some, is_empty, if◌then◌else◌,
}
use group_assessment_agent.Exec.{ok, raised, gets}
use group_assessment_agent.Jobs.{
  Stage, incoming_dir, processing_dir, completed_dir, failed_dir, FilePath,
}
use group_assessment_agent.Messages.{os_error}
use group_assessment_agent.World.{Action}

abbrev same_stage : Stage → Stage → Bool
same_stage incoming_dir incoming_dir = true
same_stage processing_dir processing_dir = true
same_stage completed_dir completed_dir = true
same_stage failed_dir failed_dir = true
same_stage _ _ = false

abbrev pub at_path : FilePath → FilePath × List ℕ → Bool
at_path p (q, _) = same_stage q.stage p.stage && q.name == p.name

-- `path.write_bytes(content)`, which replaces a file that is there.
unfoldable pub write : FilePath → List ℕ → List (FilePath × List ℕ) → List (FilePath × List ℕ)
write p content files = (p, content) ∷ select (λ f. not (at_path p f)) files

unfoldable pub save_incoming : (Text → Text) → Text → List ℕ → Text → Action FilePath
unfolding write
save_incoming secure_filename unique content original w =
    let safe = secure_filename original in
    let name = unique ++ (codes "_" ++ (if is_empty safe then codes "attachment" else safe)) in
    let path : FilePath = record { stage = incoming_dir; name = name } in
    (ok path, record w { files = write path content w.files })

-- `path.replace(target_dir / path.name)`.
unfoldable pub move_to : FilePath → Stage → Action FilePath
unfolding write
move_to path target w = elim (find (at_path path) w.files) [
  | none ↦ (raised os_error, w)
  | some (_, content) ↦
      let dest : FilePath = record { stage = target; name = path.name } in
      (
        ok dest,
        record w { files = write dest content (select (λ f. not (at_path path f)) w.files) },
      )
]

unfoldable pub path_exists : FilePath → Action Bool
unfolding gets
path_exists path = gets (λ w. is_some (find (at_path path) w.files))

unfoldable pub read_bytes : FilePath → Action (List ℕ)
read_bytes path w = elim (find (at_path path) w.files) [
  | none ↦ (raised os_error, w)
  | some (_, content) ↦ (ok content, w)
]
