-- ===== src/Api/ErrorHandlers.antt =====
-- infrastructure/api/exc_handlers.py, on the classes of application/common/errors.py.
use video_site.Common.{ℕ, zero, suc, String, Option, none, some, List, [], ◌∷◌, str}
use video_site.Errors

-- The classes of the errors.
pub data ErrorClass : Type 0 where
  application_error authentication_error invalid_credentials_error authorization_error : ErrorClass
  rate_limited_error account_locked_error entity_not_found_error user_not_found_error : ErrorClass
  role_not_found_error permission_not_found_error session_not_found_error : ErrorClass
  conflict_error email_already_exists_error username_already_exists_error : ErrorClass
  validation_error password_mismatch_error invalid_token_error : ErrorClass

-- The class that a class extends, within the application.
abbrev parent : ErrorClass → Option ErrorClass
parent application_error = none
parent authentication_error = some application_error
parent invalid_credentials_error = some authentication_error
parent authorization_error = some application_error
parent rate_limited_error = some application_error
parent account_locked_error = some rate_limited_error
parent entity_not_found_error = some application_error
parent user_not_found_error = some entity_not_found_error
parent role_not_found_error = some entity_not_found_error
parent permission_not_found_error = some entity_not_found_error
parent session_not_found_error = some entity_not_found_error
parent conflict_error = some application_error
parent email_already_exists_error = some conflict_error
parent username_already_exists_error = some conflict_error
parent validation_error = some application_error
parent password_mismatch_error = some validation_error
parent invalid_token_error = some validation_error

-- The class of an error of the model; the errors of the database are no application errors.
unfoldable pub class_of : Errors.Error → Option ErrorClass
class_of (Errors.Error.authentication _) = some authentication_error
class_of (Errors.Error.invalid_credentials _) = some invalid_credentials_error
class_of (Errors.Error.authorization _) = some authorization_error
class_of (Errors.Error.rate_limited _ _) = some rate_limited_error
class_of (Errors.Error.account_locked _) = some account_locked_error
class_of Errors.Error.user_not_found = some user_not_found_error
class_of Errors.Error.role_not_found = some role_not_found_error
class_of Errors.Error.permission_not_found = some permission_not_found_error
class_of Errors.Error.session_not_found = some session_not_found_error
class_of (Errors.Error.conflict _) = some conflict_error
class_of Errors.Error.email_already_exists = some email_already_exists_error
class_of Errors.Error.username_already_exists = some username_already_exists_error
class_of (Errors.Error.validation _) = some validation_error
class_of Errors.Error.password_mismatch = some password_mismatch_error
class_of Errors.Error.invalid_token = some invalid_token_error
class_of Errors.Error.integrity = none
class_of Errors.Error.too_long = none
class_of (Errors.Error.disappeared _) = none

-- The status of the handler that `map_exc_handlers` registers for a class.
unfoldable pub handler : ErrorClass → Option ℕ
handler application_error = none
handler authentication_error = some 401
handler invalid_credentials_error = none
handler authorization_error = some 403
handler rate_limited_error = some 429
handler account_locked_error = none
handler entity_not_found_error = some 404
handler user_not_found_error = none
handler role_not_found_error = none
handler permission_not_found_error = none
handler session_not_found_error = none
handler conflict_error = some 409
handler email_already_exists_error = none
handler username_already_exists_error = none
handler validation_error = some 422
handler password_mismatch_error = none
handler invalid_token_error = some 400

-- The walk along the classes that an error's class extends: no chain has more than three.
abbrev walk : ℕ → ErrorClass → Option ℕ
walk zero c = none
walk (suc steps) c =
    let up : Option ℕ = elim (parent c) [ some d ↦ walk steps d | none ↦ none ] in
    elim (handler c) [ some status ↦ some status | none ↦ up ]

abbrev walk_from : Option ErrorClass → Option ℕ
walk_from none = none
walk_from (some c) = walk 3 c

-- The status that an error is answered with; none is the server's own 500.
unfoldable pub status_of : Errors.Error → Option ℕ
unfolding class_of handler
status_of e = walk_from (class_of e)

-- The headers of the answer.
unfoldable pub headers_of : Errors.Error → List (String × String)
headers_of (Errors.Error.rate_limited n _) = ("Retry-After", str n) ∷ []
headers_of (Errors.Error.account_locked n) = ("Retry-After", str n) ∷ []
headers_of _ = []
