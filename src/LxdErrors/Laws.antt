-- ===== src/LxdErrors/Laws.antt =====
-- The codes of internal/lxderrors/errors.go against a table of the HTTP statuses.
use lxd_csi_driver.Base.{
  ℕ, Bool, List, [], ◌∷◌, Option, none, some, ◌≡◌, ◌↔◌, ◌==◌, if◌then◌else◌, arith, refl,
}
use lxd_csi_driver.Csi.{
  Code, ok_code, canceled, invalid_argument, deadline_exceeded, not_found, already_exists,
  permission_denied, failed_precondition, internal, unavailable, unauthenticated,
}
use lxd_csi_driver.Lxd.{Env}
use lxd_csi_driver.LxdErrors.{
  GoError, status_error_check, is_deadline_exceeded, is_canceled, error_code, to_grpc_code,
}

-- Which code stands for which status.
abbrev status_table : List (ℕ × Code)
status_table =
    (400, invalid_argument)
    ∷ (401, unauthenticated)
    ∷ (403, permission_denied)
    ∷ (404, not_found)
    ∷ (409, already_exists)
    ∷ (412, unavailable)
    ∷ (423, failed_precondition)
    ∷ []

abbrev find_status : ℕ → List (ℕ × Code) → Code → Code
find_status status [] other = other
find_status status ((s, c) ∷ table) other =
    if s == status then c else find_status status table other

-- The code of an error that carries the status: that of the table, or else of the context's end.
abbrev pub code_of_status : ℕ → Bool → Bool → Code
code_of_status status deadline stopped =
    find_status status status_table
      (if deadline then deadline_exceeded else if stopped then canceled else internal)

-- The error carries this status and no other.
abbrev pub HasStatus : (E : Env) → GoError E.Err → ℕ → Type 0
HasStatus E e status = (n : ℕ) → status_error_check E e n ≡ (n == status)

-- An error that carries one status and no other has that status's code in the table, in which 412, an
-- ETag mismatch, is unavailable. With a status that is not in the table the code is that of a deadline
-- or of a cancellation, if the error is one, and internal if not.
pub error_code_table :
    (E : Env) (e : GoError E.Err) (status : ℕ)
    → HasStatus E e status
    → error_code E e ≡ code_of_status status (is_deadline_exceeded E e) (is_canceled E e)
unfolding error_code
error_code_table E e status h = ground (arith, h 400, h 401, h 403, h 404, h 409, h 412, h 423)

-- A code of success is given to a nil error and to no other.
pub to_grpc_code_ok :
    (E : Env) (o : Option (GoError E.Err)) → (to_grpc_code E o ≡ ok_code) ↔ (o ≡ none)
unfolding to_grpc_code error_code
to_grpc_code_ok E none = (λ h. refl, λ h. refl)
to_grpc_code_ok E (some e) = ground arith
