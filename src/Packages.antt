-- ===== src/Packages.antt =====
-- `SkillPackageImporter._extract`: backend/app/skills/package.py. An entry of the archive is what the
-- library zipfile says of it, and its content is read to the end without an error of zipfile; the
-- content counts by the sizes of the chunks that are read, as `source.read` returns them.
pub mod Extracted
use Prim.Native.Char.{Char, code}
use Prim.Native.String.{◌∷◌ as push, [] as nothing, ◌++◌ as ◌<>◌}
use hermes_agent_platform.Base.{
  ℕ, zero, suc, ◌+◌, ◌/◌, ◌%◌, ◌≡◌, Bool, true, false, not, ◌&&◌, ◌||◌, List, [], ◌∷◌, ◌++◌, String,
  ◌==◌, ◌∈◌, if◌then◌else◌, length, is_empty, ltb, nat_eq, string_eq,
}
use hermes_agent_platform.Base.Outcome.{Outcome, ok, raised}

pub record Entry : Type 0 where
  pub filename : String
  pub mode : ℕ
  pub file_size : ℕ
  pub is_dir : Bool
  pub chunks : List ℕ

-- A SkillLoadError, or an error of the operating system, which is not caught.
pub data ExtractError : Type 0 where
  skill_load_error os_error : ExtractError

abbrev pub FilePath : Type 0
FilePath = List String

-- What has been done: the keys seen, the sizes that the entries name, the bytes that were read, and
-- the directories that were made and the files with the bytes written to them.
pub record Extraction : Type 0 where
  pub seen : List String
  pub total_bytes : ℕ
  pub extracted_bytes : ℕ
  pub dirs : List FilePath
  pub files : List (FilePath × ℕ)

-- What the code takes of Python and the file system: `str.casefold`, and whether a directory or a new
-- file can not be made among the directories and files that are there.
pub record System : Type 0 where
  pub casefold : String → String
  pub refuses_dir : List FilePath → List (FilePath × ℕ) → FilePath → Bool
  pub refuses_file : List FilePath → List (FilePath × ℕ) → FilePath → Bool

-- `filename.replace("\\", "/")`
unfoldable pub normalized_name : String → String
normalized_name nothing = nothing
normalized_name (push c s) = push (if code c == 92 then "/" else c) (normalized_name s)

abbrev pub starts_with_slash : String → Bool
starts_with_slash nothing = false
starts_with_slash (push c s) = code c == b'/'

-- A part of `PurePosixPath(…).parts`: neither empty nor a dot.
abbrev pub close_part : String → FilePath → FilePath
close_part part parts = if part == "" || part == "." then parts else part ∷ parts

unfoldable pub parts_from : String → String → FilePath
parts_from part nothing = close_part part []
parts_from part (push c s) =
    let closed = parts_from nothing s in
    let longer = parts_from (part <> push c nothing) s in
    if code c == b'/' then close_part part closed else longer

abbrev pub parts_of : String → FilePath
parts_of normalized = parts_from nothing normalized

-- `"/".join(parts)`
unfoldable pub join_parts : FilePath → String
join_parts [] = ""
join_parts (p ∷ []) = p
join_parts (p ∷ (q ∷ qs)) = p <> ("/" <> join_parts (q ∷ qs))

abbrev pub parent : FilePath → FilePath
parent [] = []
parent (p ∷ []) = []
parent (p ∷ (q ∷ qs)) = p ∷ parent (q ∷ qs)

-- `mode & 0o170000`, by the four bits that it keeps: 10 is a symbolic link, 8 a file, 4 a directory.
abbrev pub file_type : ℕ → ℕ
file_type mode = mode / 4096 % 16

abbrev pub is_special : ℕ → Bool
is_special t = not (t == 0 || t == 8 || t == 4)

abbrev pub is_unsafe : String → Bool
is_unsafe normalized =
    normalized == ""
    || starts_with_slash normalized
    || ".." ∈ parts_of normalized
    || "" ∈ parts_of normalized

-- The loop over the chunks of an entry, which writes each within the limit: the bytes that were read,
-- those that were written, and whether the loop came to its end.
unfoldable pub write_chunks : ℕ → ℕ → ℕ → List ℕ → ℕ × ℕ × Bool
write_chunks limit extracted written [] = (extracted, written, true)
write_chunks limit extracted written (n ∷ ns) =
    let rest = write_chunks limit (extracted + n) (written + n) ns in
    if ltb limit (extracted + n) then (extracted + n, written, false) else rest

module _ (os : System) (max_extracted_bytes : ℕ) where
  -- A file of an entry: its parent directory, and its content.
  unfoldable pub write_file :
      FilePath → List ℕ → Extraction → Extraction × Outcome ExtractError (Unit {0})
  unfolding write_chunks
  write_file path chunks s =
      let dirs = parent path ∷ s.dirs in
      if os.refuses_dir s.dirs s.files (parent path)
      then (s, raised os_error)
      else if os.refuses_file dirs s.files path
      then (record s { dirs = dirs }, raised os_error)
      else let (extracted, written, done) =
          write_chunks max_extracted_bytes s.extracted_bytes 0 chunks in
        (
          record s { extracted_bytes = extracted; dirs = dirs; files = (path, written) ∷ s.files },
          if done then ok tt else raised skill_load_error,
        )

  -- An entry whose path, kind and size are right.
  unfoldable pub place_entry :
      Entry → FilePath → Extraction → Extraction × Outcome ExtractError (Unit {0})
  unfolding write_file
  place_entry info path s =
      if info.is_dir
      then (if os.refuses_dir s.dirs s.files path
          then (s, raised os_error)
          else (record s { dirs = path ∷ s.dirs }, ok tt))
      else write_file path info.chunks s

  -- One round of the loop over the entries.
  unfoldable pub extract_entry : Entry → Extraction → Extraction × Outcome ExtractError (Unit {0})
  unfolding normalized_name parts_from join_parts place_entry
  extract_entry info s =
      let normalized = normalized_name info.filename in
      let path = parts_of normalized in
      let key = os.casefold (join_parts path) in
      let t = file_type info.mode in
      let total = s.total_bytes + info.file_size in
      if is_unsafe normalized || key ∈ s.seen
      then (s, raised skill_load_error)
      else if is_special t
      then (record s { seen = key ∷ s.seen }, raised skill_load_error)
      else if ltb max_extracted_bytes total
      then (record s { seen = key ∷ s.seen; total_bytes = total }, raised skill_load_error)
      else place_entry info path (record s { seen = key ∷ s.seen; total_bytes = total })

  -- What follows a round: the others, unless it raised.
  unfoldable pub extract_entries :
      List Entry → Extraction → Extraction × Outcome ExtractError (Unit {0})
  unfolding extract_entry
  extract_entries [] s = (s, ok tt)
  extract_entries (info ∷ infos) s =
      let (s', r) = extract_entry info s in
      elim r [ raised e ↦ (s', raised e) | ok _ ↦ extract_entries infos s' ]

  abbrev pub nothing_yet : Extraction
  nothing_yet = record { seen = []; total_bytes = 0; extracted_bytes = 0; dirs = []; files = [] }

  unfoldable pub extract : ℕ → List Entry → Extraction × Outcome ExtractError (Unit {0})
  unfolding extract_entries
  extract max_entries entries =
      if is_empty entries || ltb max_entries (length entries)
      then (nothing_yet, raised skill_load_error)
      else extract_entries entries nothing_yet
