-- ===== src/Api/AuthController.antt =====
-- main-api/src/controllers/auth.controller.ts: one session for each user, whose refresh token is kept in
-- Redis. How long it is kept stands in Lifetime; that it expires is not modelled.
pub mod Credentials
pub mod Sessions
pub mod Lifetime
use Prim.Native.String.{◌++◌}
use judge_self.Common.{
  ℕ, String, Bool, true, false, Option, none, some, List, any, eqb, ◌==◌, if◌then◌else◌,
}
use judge_self.Common.Number.{codes}
use judge_self.Api.Http.{DecodedToken, Reply, truthy}
use judge_self.Api.Middleware.{other, error_handler}
use judge_self.Api.AuthService
use judge_self.Api.AuthService.{
  UserData, LoginResponse, Bcrypt, Jwt, Registration, registered, rejected, login_user_by_email,
  login_user_by_username, refresh_access_token, check_username_exists,
}

-- The table `users` and the keys of Redis.
pub record Accounts : Type 0 where
  pub users : List UserData
  pub keys : String → Option String

pub data AuthReply : Type 0 where
  -- a status code and an error
  failure : ℕ → String → AuthReply
  -- the access token, and the refresh token as a cookie
  logged_in : String → String → AuthReply
  refreshed : String → AuthReply
  message : String → AuthReply
  registered_as : String → AuthReply
  available : Bool → AuthReply

-- What the handler yields: an answer, or a promise that is rejected.
pub data AuthResult : Type 0 where
  answers : AuthReply → AuthResult
  throws : AuthResult

-- The answer of the handler, or that of `errorHandler`.
pub data RouteReply : Type 0 where
  from_handler : AuthReply → RouteReply
  from_error_handler : Reply → RouteReply

-- `asyncHandler`
abbrev pub route_reply : AuthResult → RouteReply
route_reply (answers reply) = from_handler reply
route_reply throws = from_error_handler (error_handler other)

abbrev pub refresh_key : String → String
refresh_key user_id = "refreshToken:" ++ user_id

abbrev pub set_key : String → Option String → Accounts → Accounts
set_key key value acc = record acc { keys = λ k. if key == k then value else acc.keys k }

-- `if (get(key)) del(key)`
abbrev pub delete_if_set : String → Accounts → Option String → Accounts
delete_if_set key acc none = acc
delete_if_set key acc (some value) = set_key key none acc

-- `username.includes('@')`
abbrev pub is_email : String → Bool
is_email username = any (λ c. eqb c 64) (codes username)

module _ (bcrypt : Bcrypt) (jwt : Jwt) (access_secret refresh_secret : String) where
  abbrev pub start_session : Accounts → Option LoginResponse → Accounts × AuthReply
  start_session acc none = (acc, failure 401 "Invalid credentials")
  start_session acc (some login) = (
    set_key (refresh_key login.user_id) (some login.refresh_token) acc,
    logged_in login.access_token login.refresh_token,
  )

  abbrev pub login_with : ℕ → Accounts → Option String → Option String → Accounts × AuthReply
  login_with moment acc (some username) (some password) = start_session acc (
      if is_email username
      then login_user_by_email bcrypt jwt access_secret refresh_secret acc.users moment username
          password
      else login_user_by_username bcrypt jwt access_secret refresh_secret acc.users moment username
          password)
  login_with moment acc _ _ = (acc, failure 400 "Username and password are required")

  unfoldable pub login_user : ℕ → Accounts → Option String → Option String → Accounts × AuthReply
  login_user moment acc username password =
      login_with moment acc (truthy username) (truthy password)

  unfoldable pub logout_user : Accounts → String → Accounts × AuthReply
  logout_user acc user_id = (
    delete_if_set (refresh_key user_id) acc (truthy (acc.keys (refresh_key user_id))),
    message "Logged out successfully",
  )

  abbrev pub refresh_reply : Option String → AuthReply
  refresh_reply none = failure 401 "Invalid refresh token"
  refresh_reply (some token) = refreshed token

  abbrev pub refresh_if_same : ℕ → String → Option String → AuthReply
  refresh_if_same moment token none = failure 401 "Invalid refresh token"
  refresh_if_same moment token (some kept) =
      if kept == token
      then refresh_reply (refresh_access_token bcrypt jwt access_secret refresh_secret moment token)
      else failure 401 "Invalid refresh token"

  -- `request.user.id` throws where no middleware has set the user.
  abbrev pub refresh_with : ℕ → Accounts → Option DecodedToken → Option String → AuthResult
  refresh_with moment acc user none = answers (failure 401 "Refresh token is required")
  refresh_with moment acc none (some token) = throws
  refresh_with moment acc (some user) (some token) =
      answers (refresh_if_same moment token (truthy (acc.keys (refresh_key user.id))))

  unfoldable pub refresh_token : ℕ → Accounts → Option DecodedToken → Option String → AuthResult
  refresh_token moment acc user cookie = refresh_with moment acc user (truthy cookie)

  -- GET /refresh-token of routes/auth.routes.ts, which stands behind no `authenticate`.
  unfoldable pub refresh_token_route : ℕ → Accounts → Option String → RouteReply
  unfolding refresh_token error_handler
  refresh_token_route moment acc cookie = route_reply (refresh_token moment acc none cookie)

  abbrev pub availability : Accounts → Option String → AuthReply
  availability acc none = failure 400 "Username is required"
  availability acc (some username) =
      available (if check_username_exists acc.users username then false else true)

  unfoldable pub check_username_availability : Accounts → Option String → AuthReply
  check_username_availability acc username = availability acc (truthy username)

  abbrev pub registration_reply : Registration → AuthReply
  registration_reply (registered user) = registered_as user.id
  registration_reply (rejected text) = failure 400 text

  abbrev pub register_with :
      Accounts
      → String
      → String
      → Option String
      → Option String
      → Option String
      → Accounts × AuthReply
  register_with acc id salt (some username) (some email) (some password) =
      let (users', registration) =
        AuthService.register_user bcrypt jwt access_secret refresh_secret acc.users id salt username
          email password in
      (record acc { users = users' }, registration_reply registration)
  register_with acc id salt _ _ _ = (acc, failure 400 "Username, email and password are required")

  unfoldable pub register_user :
      Accounts
      → String
      → String
      → Option String
      → Option String
      → Option String
      → Accounts × AuthReply
  register_user acc id salt username email password =
      register_with acc id salt (truthy username) (truthy email) (truthy password)

  abbrev pub change_reply : Option String → AuthReply
  change_reply none = message "Password changed successfully"
  change_reply (some err) = failure 400 err

  abbrev pub change_with :
      Accounts → String → String → Option String → Option String → Accounts × AuthReply
  change_with acc salt id (some old) (some new) =
      let (users', err) =
        AuthService.change_password bcrypt jwt access_secret refresh_secret acc.users salt id old
          new in
      (record acc { users = users' }, change_reply err)
  change_with acc salt id _ _ = (acc, failure 400 "Old password and new password are required")

  unfoldable pub change_password :
      Accounts → String → String → Option String → Option String → Accounts × AuthReply
  change_password acc salt id old new = change_with acc salt id (truthy old) (truthy new)
