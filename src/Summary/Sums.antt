-- ===== src/Summary/Sums.antt =====
-- daemon/src/summary.rs: the sums of `compute`, which wrap at 2 ^ 64, against the events.
use php_periscope.Common.{
  ℕ, ◌+◌, ◌%◌, none, some, List, [], ◌∷◌, ◌≡◌, arith, if◌then◌else◌, unwrap_or, and_then,
  Option-cases, refl, inl, inr, nat_beq,
}
use php_periscope.Common.Text.{Text, codes}
use php_periscope.Json.{Value, Floats, get_str, get_u64, value_get, as_u64, as_object}
use php_periscope.Trace.{EventJson}
use php_periscope.Summary.Report.{Summary, ModelSummary, HttpSummary}
use php_periscope.Summary.Folds.{usize_mod, tally, fold_classes, fold_model, fold_http}
use php_periscope.Summary.Compute.{Kind, model, http, kind_of, fold_kind, fold_events}
use php_periscope.Summary.Counts.{comes_to, number_of}

pub sum_of {ℓ} : {A : Type ℓ} → (A → ℕ) → List A → ℕ
sum_of f [] = 0
sum_of f (x ∷ xs) = f x + sum_of f xs

wrap_once : (a n : ℕ) → (a % usize_mod + n) % usize_mod ≡ (a + n) % usize_mod
wrap_once a n = omega arith

-- The models that an event of the arm brings in: its count, 1 when it has none; or, when it names no
-- class, the counts of its classes together.
pub hydrated : EventJson → ℕ
hydrated e = elim (get_str e.payload (codes "class")) [
  | some class ↦ unwrap_or (get_u64 e.payload (codes "count")) 1
  | none ↦
      sum_of (λ (k, v). unwrap_or (as_u64 v) 0)
        (unwrap_or (and_then (value_get e.payload (codes "by_class")) as_object) [])
]

-- The bytes that a http event received and sent.
abbrev pub transferred : EventJson → ℕ
transferred e =
    unwrap_or (get_u64 e.payload (codes "response_bytes")) 0
    + unwrap_or (get_u64 e.payload (codes "request_bytes")) 0

fold_classes_lem :
    (by : List (Text × Value)) (a : ℕ) (m : ModelSummary)
    → m.hydrated_count ≡ a % usize_mod
    → (fold_classes by m).hydrated_count
      ≡ (a + sum_of (λ (k, v). unwrap_or (as_u64 v) 0) by) % usize_mod
unfolding fold_classes sum_of
fold_classes_lem [] a m h = omega (arith, h)
fold_classes_lem ((k, v) ∷ by) a m h =
    let n = unwrap_or (as_u64 v) 0 in
    omega (
      arith,
      fold_classes_lem by (a + n)
          record {
            hydrated_count = (m.hydrated_count + n) % usize_mod;
            by_class = tally (some k) n m.by_class;
          }
          (rw h (wrap_once a n)),
    )

fold_model_lem :
    (e : EventJson) (a : ℕ) (m : ModelSummary)
    → m.hydrated_count ≡ a % usize_mod
    → (fold_model e m).hydrated_count ≡ (a + hydrated e) % usize_mod
unfolding fold_model sum_of hydrated
fold_model_lem e a m h = elim (Option-cases (get_str e.payload (codes "class"))) [
  | inr (class, named) ↦
      rw (fold_model, hydrated, named)
        (rw h (wrap_once a (unwrap_or (get_u64 e.payload (codes "count")) 1)))
  | inl plain ↦ elim (Option-cases (and_then (value_get e.payload (codes "by_class")) as_object)) [
    | inl gone ↦
        let none_named : hydrated e ≡ 0 = rw (hydrated, plain, gone) refl in
        rw (fold_model, plain, gone) (omega (arith, h, none_named))
    | inr (by, found) ↦ rw (fold_model, hydrated, plain, found) (fold_classes_lem by a m h)
  ]
]

-- What an event adds to the two sums.
abbrev pub adds_models : EventJson → ℕ
adds_models e = if comes_to model e then hydrated e else 0

abbrev pub adds_bytes : EventJson → ℕ
adds_bytes e = if comes_to http e then transferred e else 0

module _ (floats : Floats) where
  fold_http_lem :
      (e : EventJson) (a : ℕ) (m : HttpSummary)
      → m.total_bytes ≡ a % usize_mod
      → (fold_http floats e m).total_bytes ≡ (a + transferred e) % usize_mod
  unfolding fold_http
  fold_http_lem e a m h = rw h (omega arith)

  models-fold_kind :
      (met : Kind) (e : EventJson) (a : ℕ) (s : Summary)
      → s.models.hydrated_count ≡ a % usize_mod
      → (fold_kind floats met e s).models.hydrated_count
        ≡ (a + (if nat_beq (number_of met) 1 then hydrated e else 0)) % usize_mod
  unfolding fold_kind
  models-fold_kind model e a s h = fold_model_lem e a s.models h
  models-fold_kind met e a s h = omega (arith, h)

  bytes-fold_kind :
      (met : Kind) (e : EventJson) (a : ℕ) (s : Summary)
      → s.http.total_bytes ≡ a % usize_mod
      → (fold_kind floats met e s).http.total_bytes
        ≡ (a + (if nat_beq (number_of met) 6 then transferred e else 0)) % usize_mod
  unfolding fold_kind
  bytes-fold_kind http e a s h = fold_http_lem e a s.http h
  bytes-fold_kind met e a s h = omega (arith, h)

  pub models-fold_events :
      (es : List EventJson) (a : ℕ) (s : Summary)
      → s.models.hydrated_count ≡ a % usize_mod
      → (fold_events floats es s).models.hydrated_count ≡ (a + sum_of adds_models es) % usize_mod
  unfolding fold_events sum_of
  models-fold_events [] a s h = omega (arith, h)
  models-fold_events (e ∷ es) a s h = omega (
    arith,
    models-fold_events es (a + adds_models e) (fold_kind floats (kind_of e) e s)
        (models-fold_kind (kind_of e) e a s h),
  )

  pub bytes-fold_events :
      (es : List EventJson) (a : ℕ) (s : Summary)
      → s.http.total_bytes ≡ a % usize_mod
      → (fold_events floats es s).http.total_bytes ≡ (a + sum_of adds_bytes es) % usize_mod
  unfolding fold_events sum_of
  bytes-fold_events [] a s h = omega (arith, h)
  bytes-fold_events (e ∷ es) a s h = omega (
    arith,
    bytes-fold_events es (a + adds_bytes e) (fold_kind floats (kind_of e) e s)
        (bytes-fold_kind (kind_of e) e a s h),
  )
