-- ===== src/Api/AuthService.antt =====
-- main-api/src/services/auth.service.ts and repositories/user.repository.ts: accounts and tokens, over
-- the rows of the table `users`. bcrypt and jsonwebtoken are parameters with what their documentation
-- promises, for a span of time in which no token expires.
pub mod Accounts
use judge_self.Common.{
  ℕ, String, ◌≡◌, ◌≢◌, Bool, true, false, Option, none, some, List, [], ◌∷◌, ◌++◌, ◌==◌, any, map,
  find_first, if◌then◌else◌,
}
use judge_self.Api.Http.{DecodedToken}

pub record UserData : Type 0 where
  pub id : String
  pub username : String
  pub email : String
  pub password_hash : String

pub record LoginResponse : Type 0 where
  pub user_id : String
  pub access_token : String
  pub refresh_token : String

-- `hash password salt`: bcrypt draws a salt for each hash.
pub record Bcrypt : Type 0 where
  pub hash : String → String → String
  pub compare : String → String → Bool
  pub compare-hash : (password salt : String) → compare password (hash password salt) ≡ true

-- `sign moment payload secret`: a token names the moment at which it was signed, and is never empty.
pub record Jwt : Type 0 where
  pub sign : ℕ → DecodedToken → String → String
  pub verify : String → String → Option DecodedToken
  pub verify-sign :
      (moment : ℕ) (payload : DecodedToken) (secret : String)
      → verify (sign moment payload secret) secret ≡ some payload
  pub sign-ne :
      (moment : ℕ) (payload : DecodedToken) (secret : String) → sign moment payload secret ≢ ""

unfoldable pub get_user_by_id : List UserData → String → Option UserData
get_user_by_id users id = find_first (λ u. u.id == id) users

unfoldable pub get_user_by_username : List UserData → String → Option UserData
get_user_by_username users username = find_first (λ u. u.username == username) users

unfoldable pub get_user_by_email : List UserData → String → Option UserData
get_user_by_email users email = find_first (λ u. u.email == email) users

unfoldable pub check_username_exists : List UserData → String → Bool
check_username_exists users username = any (λ u. u.username == username) users

unfoldable pub check_email_exists : List UserData → String → Bool
check_email_exists users email = any (λ u. u.email == email) users

-- INSERT, with the identifier that the database generates.
abbrev pub create_user : List UserData → UserData → List UserData
create_user users user = users ++ user ∷ []

abbrev pub with_hash : String → String → UserData → UserData
with_hash id new_hash u = if u.id == id then record u { password_hash = new_hash } else u

unfoldable pub change_user_password : List UserData → String → String → List UserData
change_user_password users id new_hash = map (with_hash id new_hash) users

abbrev pub with_username : String → String → UserData → UserData
with_username id new_username u = if u.id == id then record u { username = new_username } else u

unfoldable pub change_username : List UserData → String → String → List UserData
change_username users id new_username = map (with_username id new_username) users

abbrev pub payload_of : UserData → DecodedToken
payload_of u = record { id = u.id; username = u.username }

pub data Registration : Type 0 where
  registered : UserData → Registration
  rejected : String → Registration

module _ (bcrypt : Bcrypt) (jwt : Jwt) (access_secret refresh_secret : String) where
  abbrev pub login_response : ℕ → UserData → LoginResponse
  login_response moment user = record {
    user_id = user.id;
    access_token = jwt.sign moment (payload_of user) access_secret;
    refresh_token = jwt.sign moment (payload_of user) refresh_secret;
  }

  unfoldable pub login_user : ℕ → UserData → String → Option LoginResponse
  login_user moment user password =
      if bcrypt.compare password user.password_hash then some (login_response moment user) else none

  abbrev pub login_checked : ℕ → String → Option UserData → Option LoginResponse
  login_checked moment password none = none
  login_checked moment password (some user) =
      if bcrypt.compare password user.password_hash then login_user moment user password else none

  abbrev pub login_found : ℕ → String → Option UserData → Option LoginResponse
  login_found moment password none = none
  login_found moment password (some user) = login_user moment user password

  unfoldable pub login_user_by_email : List UserData → ℕ → String → String → Option LoginResponse
  login_user_by_email users moment email password =
      login_checked moment password (get_user_by_email users email)

  unfoldable pub login_user_by_username : List UserData → ℕ → String → String → Option LoginResponse
  login_user_by_username users moment username password =
      login_found moment password (get_user_by_username users username)

  abbrev pub new_user : String → String → String → String → String → UserData
  new_user id salt username email password = record {
    id = id;
    username = username;
    email = email;
    password_hash = bcrypt.hash password salt;
  }

  -- `id` and `salt` are those that the database and bcrypt choose.
  unfoldable pub register_user :
      List UserData → String → String → String → String → String → List UserData × Registration
  register_user users id salt username email password =
      if check_email_exists users email
      then (users, rejected "An account with that email already exists")
      else (if check_username_exists users username
          then (users, rejected "Given username is already taken")
          else (
            create_user users (new_user id salt username email password),
            registered (new_user id salt username email password),
          ))

  abbrev pub change_found :
      List UserData
      → String
      → String
      → String
      → String
      → Option UserData
      → List UserData × Option String
  change_found users salt id old new none = (users, some "User not found")
  change_found users salt id old new (some user) =
      if bcrypt.compare old user.password_hash
      then (change_user_password users id (bcrypt.hash new salt), none)
      else (users, some "Old password is incorrect")

  -- The users, and the error if there is one.
  unfoldable pub change_password :
      List UserData → String → String → String → String → List UserData × Option String
  change_password users salt id old new =
      change_found users salt id old new (get_user_by_id users id)

  abbrev pub signed_again : ℕ → Option DecodedToken → Option String
  signed_again moment none = none
  signed_again moment (some payload) = some (jwt.sign moment payload access_secret)

  -- The new access token, or none for "Invalid refresh token".
  unfoldable pub refresh_access_token : ℕ → String → Option String
  refresh_access_token moment token = signed_again moment (jwt.verify token refresh_secret)
