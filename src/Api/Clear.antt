-- ===== src/Api/Clear.antt =====
-- daemon/src/api.rs: what `clear_traces` removes.
use php_periscope.Common.{
  ℕ, ◌+◌, Option, none, some, List, [], ◌∷◌, ◌≡◌, refl, sym, ap, ◌∙◌, arith, if◌then◌else◌, list_eq,
  list_beq_iff, All, Bool-cases, Option-cases, inl, inr, count_where,
}
use php_periscope.Common.Text.{Text}
use php_periscope.Common.Results.{ok}
use php_periscope.Common.Maps.{get, HasUnique}
use php_periscope.Api.Reply.{answer}
use php_periscope.Api.Disk.{Disk, File, read_dir, children, child_name}
use php_periscope.Api.Traces.{ApiState, clear_loop, clear_traces}
use php_periscope.Api.Listing.{get-children, HasUnique-children, children_of_read_dir}
use php_periscope.Api.Names.{IsPlain, children-IsPlain, IsPlain-child_name, join-child_name}
use php_periscope.Api.Removal.{
  goes, cleared, cleared_at, Agrees, gone_from, keep_step, go_step, keep_cleared, go_cleared,
  keep_Agrees, go_Agrees,
}

clear_loop_lem :
    (dir path : Text) (read : List (Text × File)) (disk : Disk) (count : ℕ)
    → All (λ (e : Text × File). IsPlain e.0) read
    → All (λ (e : Text × File). e.1.entry_fault ≡ none) read
    → HasUnique read
    → Agrees dir read disk
    → let after = clear_loop dir read disk count in
      (after.1 ≡ answer (count + count_where goes read))
      × (get after.0.files path ≡ cleared_at dir read disk path)
unfolding clear_loop get
clear_loop_lem dir path [] disk count plain fine unique agrees = (
  ap answer (omega arith),
  elim (Option-cases (child_name dir path)) [
    | inl outside ↦ rw (cleared_at, outside) refl
    | inr (name, found) ↦ rw (cleared_at, found) refl
  ],
)
clear_loop_lem dir path ((name, file) ∷ read) disk count (here, plain) (listed, fine) (new, unique)
      agrees =
    let there = agrees name file here (rw ((list_beq_iff name name).1 refl) refl) in
    elim (Bool-cases (goes (name, file))) [
      | inr kept ↦
          let (counted, left) =
            clear_loop_lem dir path read disk count plain fine unique
              (keep_Agrees dir name file read here disk new agrees) in
          rw (keep_step dir name file read here disk count listed there kept, kept)
            (
              counted ∙ ap answer (omega arith),
              left ∙ keep_cleared dir name file read here disk path new kept,
            )
      | inl goes_on ↦
          let (counted, left) =
            clear_loop_lem dir path read (gone_from dir name file read here disk) (count + 1) plain
              fine unique (go_Agrees dir name file read here disk new agrees) in
          rw (go_step dir name file read here disk count listed there goes_on, goes_on)
            (
              counted ∙ ap answer (omega arith),
              left ∙ go_cleared dir name file read here disk path new goes_on,
            )
    ]

-- What is left of a file, or of none, once the entries are removed.
abbrev pub without : Text → Option File → Option File
without name none = none
without name (some file) = if goes (name, file) then none else some file

cleared_same :
    (name : Text) (old : Option File)
    → (elim old as (λ x. Option File) [
      | none ↦ old
      | some file ↦ if goes (name, file) then none else old
    ])
      ≡ without name old
cleared_same name none = refl
cleared_same name (some file) = refl

-- What is cleared by the entries of the directory, said of its files.
cleared_lem :
    (state : ApiState) (disk : Disk) (entries : List (Text × File)) (path : Text)
    → entries ≡ children state.trace_dir disk.files
    → cleared_at state.trace_dir entries disk path ≡ elim (child_name state.trace_dir path) [
      | none ↦ get disk.files path
      | some name ↦ without name (get disk.files path)
    ]
cleared_lem state disk entries path same = elim (Option-cases (child_name state.trace_dir path)) [
  | inl outside ↦ rw (cleared_at, outside) refl
  | inr (name, found) ↦
      let dir = state.trace_dir in
      let looked : get entries name ≡ get disk.files path =
        ap (λ es. get es name) same
        ∙ get-children dir name disk.files (IsPlain-child_name dir path name found)
        ∙ ap (get disk.files) (join-child_name dir path name found) in
      rw (cleared_at, found, cleared, looked) (cleared_same name (get disk.files path))
]

-- When the trace directory can be read, each of its entries can, and no path has two files, clearing
-- answers with the number of the entries that are traces and can be removed, and afterwards
-- exactly those are gone: a file at another path, or of another name, or one that cannot be
-- removed, is as before.
pub clear_traces_lem :
    (state : ApiState) (disk : Disk) (entries : List (Text × File)) (path : Text)
    → read_dir disk state.trace_dir ≡ ok entries
    → All (λ (e : Text × File). e.1.entry_fault ≡ none) entries
    → HasUnique disk.files
    → let after = clear_traces state disk in
      (after.1 ≡ answer (count_where goes entries))
      × (get after.0.files path ≡ elim (child_name state.trace_dir path) [
        | none ↦ get disk.files path
        | some name ↦ without name (get disk.files path)
      ])
unfolding clear_traces
clear_traces_lem state disk entries path listed fine unique =
    let dir = state.trace_dir in
    let same = children_of_read_dir disk dir entries listed in
    let (counted, left) =
      clear_loop_lem dir path entries disk 0 (rw same (children-IsPlain dir disk.files)) fine
        (rw same (HasUnique-children dir disk.files unique))
        (λ name file plain e. sym (get-children dir name disk.files plain) ∙ rw (← same) e) in
    rw (clear_traces, listed)
      (counted ∙ ap answer (omega arith), left ∙ cleared_lem state disk entries path same)
