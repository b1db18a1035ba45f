-- ===== src/Api/Removal.antt =====
-- daemon/src/api.rs: one entry of the loop of `clear_traces`, kept or removed.
use php_periscope.Common.{
  ℕ, ◌+◌, Option, none, some, List, ◌∷◌, ◌≡◌, refl, sym, ap, ◌∙◌, Bool, true, false, ◌&&◌,
  if◌then◌else◌, ◌==◌, list_eq, list_beq_iff, Bool-cases, Option-cases, inl, inr,
}
use php_periscope.Common.Text.{Text}
use php_periscope.Common.Maps.{get, remove, get-remove}
use php_periscope.Api.Disk.{Disk, File, join, remove_file, child_name}
use php_periscope.Api.Traces.{is_trace, clear_loop}
use php_periscope.Api.Listing.{beq_sym, same_name, outside_apart}
use php_periscope.Api.Names.{IsPlain, child_name-join}

abbrev pub can_go : Option Text → Bool
can_go none = true
can_go (some _) = false

-- An entry that `clear_traces` removes.
abbrev pub goes : Text × File → Bool
goes (name, file) = is_trace name && can_go file.remove_fault

-- Clearing from a list of entries, at a path of the directory.
abbrev pub cleared : List (Text × File) → Text → Option File → Option File
cleared read name old = elim (get read name) [
  | none ↦ old
  | some file ↦ if goes (name, file) then none else old
]

abbrev pub cleared_at : Text → List (Text × File) → Disk → Text → Option File
cleared_at dir read disk path = elim (child_name dir path) [
  | none ↦ get disk.files path
  | some name ↦ cleared read name (get disk.files path)
]

-- The entries that are still to be read are files of the disk.
abbrev pub Agrees : Text → List (Text × File) → Disk → Type 0
Agrees dir read disk =
    (name : Text) (file : File)
    → IsPlain name
    → get read name ≡ some file
    → get disk.files (join dir name) ≡ some file

module _ (dir name : Text) (file : File) (read : List (Text × File)) (here : IsPlain name) where
  abbrev pub gone_from : Disk → Disk
  gone_from disk = record disk { files = remove (join dir name) disk.files }

  -- One entry, kept or removed.
  pub keep_step :
      (disk : Disk) (count : ℕ)
      → file.entry_fault ≡ none
      → get disk.files (join dir name) ≡ some file
      → goes (name, file) ≡ false
      → clear_loop dir ((name, file) ∷ read) disk count ≡ clear_loop dir read disk count
  unfolding clear_loop remove_file
  keep_step disk count listed there kept = elim (Bool-cases (is_trace name)) [
    | inr other ↦ rw (clear_loop, listed, other) refl
    | inl trace ↦ elim (Option-cases file.remove_fault) [
      | inr (e, fault) ↦ rw (clear_loop, listed, trace, remove_file, there, fault) refl
      | inl free ↦ absurd (cc (rw (trace, free) at kept))
    ]
  ]

  pub go_step :
      (disk : Disk) (count : ℕ)
      → file.entry_fault ≡ none
      → get disk.files (join dir name) ≡ some file
      → goes (name, file) ≡ true
      → clear_loop dir ((name, file) ∷ read) disk count
        ≡ clear_loop dir read (gone_from disk) (count + 1)
  unfolding clear_loop remove_file
  go_step disk count listed there goes_on = elim (Bool-cases (is_trace name)) [
    | inr other ↦ absurd (cc (rw other at goes_on))
    | inl trace ↦ elim (Option-cases file.remove_fault) [
      | inr (e, fault) ↦ absurd (cc (rw (trace, fault) at goes_on))
      | inl free ↦ rw (clear_loop, listed, trace, remove_file, there, free) refl
    ]
  ]

  -- A name that is still to be read is another one.
  other_name :
      (name' : Text) (file' : File)
      → get read name ≡ none
      → get read name' ≡ some file'
      → (name == name') ≡ false
  other_name name' file' new e = elim (Bool-cases (name == name')) [
    | inr other ↦ other
    | inl same ↦ absurd (cc (new, ap (get read) ((list_beq_iff name name').0 same), e))
  ]

  -- The head of the list at another name, and at its own.
  other_cleared :
      (name' : Text) (old : Option File)
      → (name == name') ≡ false
      → cleared read name' old ≡ cleared ((name, file) ∷ read) name' old
  unfolding get
  other_cleared name' old other = rw (cleared, get, other) refl

  own_cleared :
      (name' : Text) (old : Option File)
      → (name == name') ≡ true
      → get read name ≡ none
      → (cleared read name' old ≡ old)
        × (cleared ((name, file) ∷ read) name' old ≡ (if goes (name, file) then none else old))
  unfolding get
  own_cleared name' old same new =
      let equal : name ≡ name' = (list_beq_iff name name').0 same in
      let none_left : get read name' ≡ none = ap (get read) (sym equal) ∙ new in
      (rw (cleared, none_left) refl, rw (cleared, get, same) (rw (← equal) refl))

  gone_get :
      (disk : Disk) (path : Text)
      → get (gone_from disk).files path
        ≡ (if join dir name == path then none else get disk.files path)
  gone_get disk path = get-remove (join dir name) path disk.files

  at_child :
      (entries : List (Text × File)) (disk : Disk) (path name' : Text)
      → child_name dir path ≡ some name'
      → cleared_at dir entries disk path ≡ cleared entries name' (get disk.files path)
  at_child entries disk path name' found = rw (cleared_at, found) refl

  pub keep_cleared :
      (disk : Disk) (path : Text)
      → get read name ≡ none
      → goes (name, file) ≡ false
      → cleared_at dir read disk path ≡ cleared_at dir ((name, file) ∷ read) disk path
  keep_cleared disk path new kept = elim (Option-cases (child_name dir path)) [
    | inl outside ↦ rw (cleared_at, outside) refl
    | inr (name', found) ↦
        let old = get disk.files path in
        let from = at_child read disk path name' found in
        let to = sym (at_child ((name, file) ∷ read) disk path name' found) in
        elim (Bool-cases (name == name')) [
          | inr other ↦ from ∙ other_cleared name' old other ∙ to
          | inl same ↦
              let (left, right) = own_cleared name' old same new in
              from ∙ left ∙ sym (right ∙ rw kept refl) ∙ to
        ]
  ]

  pub go_cleared :
      (disk : Disk) (path : Text)
      → get read name ≡ none
      → goes (name, file) ≡ true
      → cleared_at dir read (gone_from disk) path ≡ cleared_at dir ((name, file) ∷ read) disk path
  go_cleared disk path new goes_on = elim (Option-cases (child_name dir path)) [
    | inl outside ↦
        let apart = beq_sym (join dir name) path ∙ outside_apart dir path name outside here in
        rw (cleared_at, outside) (gone_get disk path ∙ rw apart refl)
    | inr (name', found) ↦
        let met =
          beq_sym (join dir name) path
          ∙ same_name dir path name' name found here
          ∙ beq_sym name' name in
        let old = get disk.files path in
        let from =
          at_child read (gone_from disk) path name' found
          ∙ ap (cleared read name') (gone_get disk path) in
        let to = sym (at_child ((name, file) ∷ read) disk path name' found) in
        elim (Bool-cases (name == name')) [
          | inr other ↦
              from
              ∙ ap (cleared read name') (rw (met, other) refl)
              ∙ other_cleared name' old other
              ∙ to
          | inl same ↦
              let (left, _) = own_cleared name' none same new in
              let (_, right) = own_cleared name' old same new in
              from
              ∙ ap (cleared read name') (rw (met, same) refl)
              ∙ left
              ∙ sym (right ∙ rw goes_on refl)
              ∙ to
        ]
  ]

  pub keep_Agrees :
      (disk : Disk)
      → get read name ≡ none
      → Agrees dir ((name, file) ∷ read) disk
      → Agrees dir read disk
  unfolding get
  keep_Agrees disk new agrees name' file' plain e =
      agrees name' file' plain (rw (get, other_name name' file' new e) e)

  pub go_Agrees :
      (disk : Disk)
      → get read name ≡ none
      → Agrees dir ((name, file) ∷ read) disk
      → Agrees dir read (gone_from disk)
  go_Agrees disk new agrees name' file' plain e =
      let apart : (join dir name == join dir name') ≡ false =
        same_name dir (join dir name) name name' (child_name-join dir name here) plain
        ∙ other_name name' file' new e in
      gone_get disk (join dir name') ∙ rw apart (keep_Agrees disk new agrees name' file' plain e)
