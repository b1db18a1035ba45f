-- ===== src/Api/Listing.antt =====
-- daemon/src/api.rs: the entries of a directory and the paths they stand for.
use php_periscope.Common.{
  none, some, List, [], ◌∷◌, ◌≡◌, refl, sym, ap, ◌∙◌, false, ◌==◌, list_eq, list_beq_iff,
  Bool-cases, Option-cases, inl, inr,
}
use php_periscope.Common.Text.{Text}
use php_periscope.Common.Results.{ok}
use php_periscope.Common.Maps.{Map, get, HasUnique}
use php_periscope.Api.Disk.{Disk, File, join, read_dir, children, child_name, member}
use php_periscope.Api.Names.{IsPlain, child_name-join, IsPlain-child_name, join-child_name}

pub beq_sym : (s t : Text) → (s == t) ≡ (t == s)
beq_sym s t = elim (Bool-cases (t == s)) [
  | inl same ↦ rw same ((list_beq_iff s t).1 (sym ((list_beq_iff t s).0 same)))
  | inr other ↦ elim (Bool-cases (s == t)) [
    | inr apart ↦ apart ∙ sym other
    | inl same ↦ absurd (cc (other, (list_beq_iff t s).1 (sym ((list_beq_iff s t).0 same))))
  ]
]

-- Paths of the directory are as different as their names.
pub same_name :
    (dir path name' name : Text)
    → child_name dir path ≡ some name'
    → IsPlain name
    → (path == join dir name) ≡ (name' == name)
same_name dir path name' name e plain = elim (Bool-cases (name' == name)) [
  | inl same ↦
      let equal : name' ≡ name = (list_beq_iff name' name).0 same in
      rw same (
        (list_beq_iff path (join dir name)).1
          (sym (join-child_name dir path name' e) ∙ ap (join dir) equal))
  | inr other ↦ elim (Bool-cases (path == join dir name)) [
    | inr apart ↦ apart ∙ sym other
    | inl same ↦
        let moved = ap (child_name dir) ((list_beq_iff path (join dir name)).0 same) in
        let equal : name' ≡ name = cc (e, moved, child_name-join dir name plain) in
        absurd (cc (other, (list_beq_iff name' name).1 equal))
  ]
]

pub outside_apart :
    (dir path name : Text)
    → child_name dir path ≡ none
    → IsPlain name
    → (path == join dir name) ≡ false
outside_apart dir path name e plain = elim (Bool-cases (path == join dir name)) [
  | inr apart ↦ apart
  | inl same ↦
      let moved = ap (child_name dir) ((list_beq_iff path (join dir name)).0 same) in
      absurd (cc (e, moved, child_name-join dir name plain))
]

pub get-children :
    (dir name : Text) (files : Map Text File)
    → IsPlain name
    → get (children dir files) name ≡ get files (join dir name)
unfolding children get
get-children dir name [] plain = refl
get-children dir name ((path, file) ∷ files) plain = elim (Option-cases (child_name dir path)) [
  | inl gone ↦
      rw (children, get, gone, outside_apart dir path name gone plain)
        (get-children dir name files plain)
  | inr (name', found) ↦
      rw
        (
          children,
          get,
          found,
          same_name dir path name' name found plain,
          get-children dir name files plain,
        )
        refl
]

pub HasUnique-children :
    (dir : Text) (files : Map Text File) → HasUnique files → HasUnique (children dir files)
unfolding children
HasUnique-children dir [] h = tt
HasUnique-children dir ((path, file) ∷ files) (new, h) = elim (Option-cases (child_name dir path)) [
  | inl gone ↦ rw (children, gone) (HasUnique-children dir files h)
  | inr (name, found) ↦
      let fresh =
        get-children dir name files (IsPlain-child_name dir path name found)
        ∙ ap (get files) (join-child_name dir path name found)
        ∙ new in
      rw (children, found) (fresh, HasUnique-children dir files h)
]

pub children_of_read_dir :
    (disk : Disk) (dir : Text) (entries : List (Text × File))
    → read_dir disk dir ≡ ok entries
    → entries ≡ children dir disk.files
unfolding read_dir
children_of_read_dir disk dir entries listed = elim (Bool-cases (member dir disk.dirs)) [
  | inl there ↦ sym (cc (rw (read_dir, there) at listed))
  | inr missing ↦ absurd (cc (rw (read_dir, missing) at listed))
]
