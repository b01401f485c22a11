-- ===== src/Errors.antt =====
-- application/common/errors.py: the errors that the use cases raise, with what they carry; and the
-- errors of the database layer that no use case catches.
use video_site.Common.{◌≡◌, ◌⊎◌, inl, inr, refl, ℕ, String, [], ◌∷◌, fstring, str}

pub data Error : Type 0 where
  authentication invalid_credentials authorization : String → Error
  rate_limited : ℕ → String → Error
  account_locked : ℕ → Error
  user_not_found role_not_found permission_not_found session_not_found : Error
  conflict : String → Error
  email_already_exists username_already_exists : Error
  validation : String → Error
  password_mismatch invalid_token : Error
  -- `IntegrityError` and `DataError` of the database, and the `ValueError` of an update without a
  -- row.
  integrity too_long : Error
  disappeared : ℕ → Error

-- The messages that the constructors fill in.
abbrev pub bad_login : Error
bad_login = invalid_credentials "Invalid email or password"

abbrev pub too_many_requests : ℕ → Error
too_many_requests retry_after = rate_limited retry_after "Too many requests"

-- The text that reaches the client: `str(exc)`.
unfoldable pub detail : Error → String
detail (authentication message) = message
detail (invalid_credentials message) = message
detail (authorization message) = message
detail (rate_limited _ message) = message
detail (account_locked n) =
    fstring ("Too many failed login attempts. " ∷ "Try again in " ∷ str n ∷ " seconds." ∷ [])
detail user_not_found = "User not found"
detail role_not_found = "Role not found"
detail permission_not_found = "Permission not found"
detail session_not_found = "Session not found"
detail (conflict message) = message
detail email_already_exists = "A user with this email already exists"
detail username_already_exists = "This username is already taken"
detail (validation message) = message
detail password_mismatch = "Passwords do not match"
detail invalid_token = "This link is invalid or has expired"
detail integrity = ""
detail too_long = ""
detail (disappeared n) = fstring ("User " ∷ str n ∷ " disappeared during update" ∷ [])

pub data Result (A : Type 0) : Type 0 where
  ok : A → Result A
  err : Error → Result A

-- To split on a result and keep the equation.
pub Result-cases :
    {A : Type 0} (r : Result A) → ((a : A) × (r ≡ ok a)) ⊎ ((e : Error) × (r ≡ err e))
Result-cases (ok a) = inl (a, refl)
Result-cases (err e) = inr (e, refl)
