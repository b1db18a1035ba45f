-- ===== src/Api/Disk.antt =====
-- What daemon/src/api.rs and daemon/src/trace.rs ask of the file system. A path is a text, and so
-- is a file name: names that are not UTF-8 are left out. What the system can refuse is written
-- down with each file, as the error's text.
use php_periscope.Common.{
  ℕ, Option, none, some, List, [], ◌∷◌, ◌++◌, Bool, true, false, ◌||◌, if◌then◌else◌, nat_beq, ◌==◌,
  list_eq, and_then, unwrap_or,
}
use php_periscope.Common.Text.{Text, codes}
use php_periscope.Common.Results.{Result, ok, err, ◌>>=◌}
use php_periscope.Common.Maps.{Map, get, insert, remove}
use php_periscope.Common.Numbers.{rsplit_once}
use php_periscope.Decode.Raw.{RawTrace}
use php_periscope.Api.Reply.{with_context}

pub record File : Type 0 where
  pub bytes : List ℕ
  -- nanoseconds since the epoch, where the system tells
  pub modified : Option ℕ
  -- why the entry, its metadata or its contents cannot be read, or the file cannot be removed
  pub entry_fault : Option Text
  pub metadata_fault : Option Text
  pub read_fault : Option Text
  pub remove_fault : Option Text

pub record Disk : Type 0 where
  pub files : Map Text File
  -- the directories that `read_dir` opens, and the error for another
  pub dirs : List Text
  pub no_such : Text
  -- why a path cannot be written
  pub write_fault : Text → Option Text
  pub clock : Option ℕ
  -- `std::fs::canonicalize`
  pub canonicalize : Text → Option Text

abbrev pub slash : ℕ
slash = b'/'

abbrev pub has_char : ℕ → Text → Bool
has_char d [] = false
has_char d (c ∷ s) = nat_beq c d || has_char d s

-- A directory's path up to its last slash, one added if it has none there.
unfoldable pub slashed : Text → Text
slashed [] = []
slashed (c ∷ []) = if nat_beq c slash then c ∷ [] else c ∷ slash ∷ []
slashed (c ∷ d ∷ s) = c ∷ slashed (d ∷ s)

-- `Path::join`
unfoldable pub join : Text → Text → Text
unfolding slashed
join dir [] = slashed dir
join dir (c ∷ name) = if nat_beq c slash then c ∷ name else slashed dir ++ c ∷ name

unfoldable pub strip_prefix : Text → Text → Option Text
strip_prefix [] s = some s
strip_prefix (c ∷ p) [] = none
strip_prefix (c ∷ p) (d ∷ s) = if nat_beq c d then strip_prefix p s else none

abbrev pub plain_name : Text → Option Text
plain_name [] = none
plain_name (c ∷ s) = if has_char slash (c ∷ s) then none else some (c ∷ s)

-- The name of a path that stands directly in a directory.
unfoldable pub child_name : Text → Text → Option Text
child_name dir path = and_then (strip_prefix (slashed dir) path) plain_name

unfoldable pub children : Text → Map Text File → List (Text × File)
children dir [] = []
children dir ((path, file) ∷ files) =
    let rest = children dir files in
    elim (child_name dir path) [ none ↦ rest | some name ↦ (name, file) ∷ rest ]

abbrev pub member : Text → List Text → Bool
member x [] = false
member x (y ∷ ys) = x == y || member x ys

-- `std::fs::read_dir`: the names of the entries and the files they are.
unfoldable pub read_dir : Disk → Text → Result (List (Text × File))
read_dir disk dir = if member dir disk.dirs then ok (children dir disk.files) else err disk.no_such

abbrev pub unless_fault {ℓ} : {A : Type ℓ} → Option Text → A → Result A
unless_fault none a = ok a
unless_fault (some e) a = err e

-- `Path::exists`, `std::fs::read`, `std::fs::remove_file` and `std::fs::write`
unfoldable pub exists : Disk → Text → Bool
exists disk path = elim (get disk.files path) [ none ↦ member path disk.dirs | some _ ↦ true ]

unfoldable pub read : Disk → Text → Result (List ℕ)
read disk path = elim (get disk.files path) [
  | none ↦ err disk.no_such
  | some file ↦ unless_fault file.read_fault file.bytes
]

unfoldable pub remove_file : Disk → Text → Result Disk
remove_file disk path = elim (get disk.files path) [
  | none ↦ err disk.no_such
  | some file ↦ unless_fault file.remove_fault (record disk { files = remove path disk.files })
]

abbrev pub new_file : File
new_file = record {
  bytes = [];
  modified = none;
  entry_fault = none;
  metadata_fault = none;
  read_fault = none;
  remove_fault = none;
}

unfoldable pub write : Disk → Text → List ℕ → Result Disk
write disk path bytes =
    let old = unwrap_or (get disk.files path) new_file in
    unless_fault (disk.write_fault path) (record disk {
      files = insert path (record old { bytes = bytes; modified = disk.clock }) disk.files;
    })

-- `Path::extension` and `Path::file_stem`, of a file name.
unfoldable pub extension : Text → Option Text
extension name = if name == codes ".." then none else elim (rsplit_once b'.' name) [
  | none ↦ none
  | some ([], _) ↦ none
  | some (_ ∷ _, after) ↦ some after
]

unfoldable pub file_stem : Text → Text
file_stem name = if name == codes ".." then name else elim (rsplit_once b'.' name) [
  | none ↦ name
  | some ([], _) ↦ name
  | some (c ∷ before, _) ↦ c ∷ before
]

-- What the capnp library makes of the bytes of a trace: a message, and its root.
pub record Capnp : Type 0 where
  pub read_message : List ℕ → Option (Result RawTrace)

pub record Trace : Type 0 where
  pub path : Text
  pub message : Result RawTrace

module _ (capnp : Capnp) where
  -- `Trace::open`
  unfoldable pub open_trace_file : Disk → Text → Result Trace
  open_trace_file disk path = do
    bytes ← with_context (read disk path) (codes "opening " ++ path)
    elim (capnp.read_message bytes) [
      | none ↦ err (codes "parsing capnp from " ++ path)
      | some message ↦ ok (record { path = path; message = message })
    ]
