-- ===== src/Api/Middleware.antt =====
-- main-api/src/middleware: authenticate, errorHandler and notFound, and utils/async-handler.ts. `verify` is
-- `jwt.verify` with the secret of the access tokens, `none` where it throws.
pub mod Verified
use Prim.Native.String.{◌++◌}
use judge_self.Common.{ℕ, String, Bool, true, false, Option, none, some, ◌==◌, if◌then◌else◌}
use judge_self.Api.Http.{DecodedToken, Reply, message, truthy}

-- The text up to the first space.
unfoldable pub up_to_space : String → String
up_to_space String.[] = String.[]
up_to_space (String.◌∷◌ c s) =
    let rest = up_to_space s in if String.◌∷◌ c String.[] == " " then "" else String.◌∷◌ c rest

-- The text after the first space.
unfoldable pub after_space : String → Option String
after_space String.[] = none
after_space (String.◌∷◌ c s) =
    let rest = after_space s in if String.◌∷◌ c String.[] == " " then some s else rest

abbrev pub first_word : Option String → Option String
first_word none = none
first_word (some s) = some (up_to_space s)

-- `header?.split(" ")[1]`
abbrev pub bearer : Option String → Option String
bearer none = none
bearer (some header) = first_word (after_space header)

-- The answer, or the user with whom the next handler goes on.
pub data Access : Type 0 where
  denied : Reply → Access
  next : DecodedToken → Access

abbrev pub denial : String → Access
denial text = denied (record { status = 401; body = message text })

abbrev pub decoded_access : Option DecodedToken → Access
decoded_access none = denial "Access Denied: Invalid token"
decoded_access (some user) = next user

abbrev pub token_access : (String → Option DecodedToken) → Option String → Access
token_access verify none = denial "Access Denied: No token provided"
token_access verify (some token) = decoded_access (verify token)

unfoldable pub authenticate : (String → Option DecodedToken) → Option String → Access
unfolding up_to_space after_space
authenticate verify authorization = token_access verify (truthy (bearer authorization))

-- An exception: an `HttpError` with its status and message, or another one.
pub data Exception : Type 0 where
  http_error : ℕ → String → Exception
  other : Exception

unfoldable pub error_handler : Exception → Reply
error_handler (http_error status text) = record { status = status; body = message text }
error_handler other = record { status = 500; body = message "Internal server error" }

-- What a handler yields: an answer, or a promise that is rejected.
pub data Handled : Type 0 where
  answered : Reply → Handled
  rejected : Exception → Handled

-- `asyncHandler` passes a rejection to `next`, and so to `errorHandler`.
unfoldable pub async_handler : Handled → Reply
unfolding error_handler
async_handler (answered reply) = reply
async_handler (rejected e) = error_handler e

unfoldable pub not_found : String → Reply
not_found original_url = record { status = 404; body = message ("Not found " ++ original_url) }

-- A route behind `authenticate`.
abbrev pub proceed : Access → (DecodedToken → Handled) → Reply
proceed (denied reply) handler = reply
proceed (next user) handler = async_handler (handler user)

unfoldable pub protected :
    (String → Option DecodedToken) → Option String → (DecodedToken → Handled) → Reply
unfolding authenticate async_handler
protected verify authorization handler = proceed (authenticate verify authorization) handler
