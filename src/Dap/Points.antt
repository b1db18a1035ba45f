-- ===== src/Dap/Points.antt =====
-- daemon/src/dap.rs: the breakpoints after `setBreakpoints`.
use php_periscope.Common.{
  ℕ, List, [], ◌∷◌, ◌++◌, Bool, true, false, not, ◌&&◌, ◌||◌, ◌==◌, list_eq, pair_eq, nat_beq, ◌≡◌,
  refl, arith, if◌then◌else◌, retain, Bool-cases, inl, inr, subst,
}
use php_periscope.Common.Text.{Text}
use php_periscope.Replay.Cursor.{contains}
use php_periscope.Dap.Session.{DapServer}
use php_periscope.Dap.Requests.{set_points, add_point, add_points, in_other_file}

abbrev pub has_line : ℕ → List ℕ → Bool
has_line line [] = false
has_line line (l ∷ lines) = nat_beq l line || has_line line lines

contains-append :
    (ps : List (Text × ℕ)) (q p : Text × ℕ) → contains (ps ++ q ∷ []) p ≡ (contains ps p || q == p)
unfolding contains
contains-append [] q p = ground arith
contains-append (o ∷ ps) q p = ground (arith, contains-append ps q p)

contains-add_point :
    (ps : List (Text × ℕ)) (q p : Text × ℕ)
    → contains (add_point ps q) p ≡ (contains ps p || q == p)
unfolding add_point
contains-add_point ps q p = elim (Bool-cases (contains ps q)) [
  | inr new ↦ rw new (contains-append ps q p)
  | inl old ↦ elim (Bool-cases (q == p)) [
    | inr other ↦ rw (old, other) (ground arith)
    | inl same ↦
        rw (old, same)
          (subst (λ o. contains ps o ≡ (contains ps o || true)) ((pair_eq.same_iff q p).0 same)
            (rw old refl))
  ]
]

contains-add_points :
    (path : Text) (lines : List ℕ) (ps : List (Text × ℕ)) (f : Text) (l : ℕ)
    → contains (add_points path lines ps) (f, l)
      ≡ (contains ps (f, l) || (path == f && has_line l lines))
unfolding add_points
contains-add_points path [] ps f l = ground arith
contains-add_points path (line ∷ lines) ps f l = ground (
  arith,
  contains-add_points path lines (add_point ps (path, line)) f l,
  contains-add_point ps (path, line) (f, l),
)

contains-retain :
    (path : Text) (ps : List (Text × ℕ)) (f : Text) (l : ℕ)
    → contains (retain (in_other_file path) ps) (f, l) ≡ (contains ps (f, l) && not (f == path))
unfolding contains retain
contains-retain path [] f l = ground arith
contains-retain path ((g, m) ∷ ps) f l = ground (
  arith,
  contains-retain path ps f l,
  list_eq.same_iff g f,
  list_eq.same_iff g path,
  list_eq.same_iff f path,
)

-- After a file's breakpoints are set, a point of that file is a breakpoint exactly when its line
-- is among the given lines, and a point of another file exactly when it was one.
pub set_points_lem :
    (path : Text) (lines : List ℕ) (s : DapServer) (f : Text) (l : ℕ)
    → contains (set_points path lines s).state.breakpoints.points (f, l)
      ≡ (if path == f then has_line l lines else contains s.state.breakpoints.points (f, l))
unfolding set_points
set_points_lem path lines s f l = ground (
  arith,
  contains-add_points path lines (retain (in_other_file path) s.state.breakpoints.points) f l,
  contains-retain path s.state.breakpoints.points f l,
  list_eq.same_iff f path,
  list_eq.same_iff path f,
)
