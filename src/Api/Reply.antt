-- ===== src/Api/Reply.antt =====
-- daemon/src/api.rs: `ApiError` and `ApiResult`.
use php_periscope.Common.{ℕ, ◌≡◌, refl, ap}
use php_periscope.Common.Text.{Text}
use php_periscope.Common.Results.{Result, ok, err}

pub record ApiError : Type 0 where
  pub code : ℕ
  pub message : Text

abbrev pub not_found : Text → ApiError
not_found msg = record { code = 404; message = msg }

abbrev pub forbidden : Text → ApiError
forbidden msg = record { code = 403; message = msg }

abbrev pub bad_request : Text → ApiError
bad_request msg = record { code = 400; message = msg }

abbrev pub internal : Text → ApiError
internal e = record { code = 500; message = e }

pub data ApiResult {ℓ} (A : Type ℓ) : Type ℓ where
  answer : A → ApiResult A
  refuse : ApiError → ApiResult A

infixl 5 ◌>>=◌
abbrev pub ◌>>=◌ {ℓ κ} : {A : Type ℓ} {B : Type κ} → ApiResult A → (A → ApiResult B) → ApiResult B
answer a >>= k = k a
refuse e >>= k = refuse e

-- `map_err(ApiError::internal)`, and the `?` on another error type.
abbrev pub or_internal {ℓ} : {A : Type ℓ} → Result A → ApiResult A
or_internal (ok a) = answer a
or_internal (err e) = refuse (internal e)

-- `with_context`: the outermost message is the one that is shown.
abbrev pub with_context {ℓ} : {A : Type ℓ} → Result A → Text → Result A
with_context (ok a) text = ok a
with_context (err _) text = err text

-- What an answer at the end of a chain says of its first part.
pub answer_of_bind {ℓ κ} :
    {A : Type ℓ} {B : Type κ} (r : ApiResult A) (k : A → ApiResult B) (b : B)
    → (r >>= k) ≡ answer b
    → (a : A) × (r ≡ answer a) × (k a ≡ answer b)
answer_of_bind (answer a) k b e = (a, refl, e)
answer_of_bind (refuse error) k b e = absurd (cc e)

pub ok_of_or_internal {ℓ} :
    {A : Type ℓ} (r : Result A) (a : A) → or_internal r ≡ answer a → r ≡ ok a
ok_of_or_internal (ok b) a e = ap ok (cc e)
ok_of_or_internal (err text) a e = absurd (cc e)

pub ok_of_with_context {ℓ} :
    {A : Type ℓ} (r : Result A) (text : Text) (a : A) → with_context r text ≡ ok a → r ≡ ok a
ok_of_with_context (ok b) text a e = e
ok_of_with_context (err _) text a e = absurd (cc e)
