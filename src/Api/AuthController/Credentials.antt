-- ===== src/Api/AuthController/Credentials.antt =====
-- Whose login is answered: the name and the password that controllers/auth.controller.ts passes to
-- services/auth.service.ts.
use judge_self.Common.{
  ℕ, String, ◌≡◌, refl, inl, inr, Option, none, some, any, eqb, Bool-cases, if◌then◌else◌,
}
use judge_self.Common.Number.{codes}
use judge_self.Api.AuthService.{
  UserData, LoginResponse, Bcrypt, Jwt, get_user_by_email, get_user_by_username, login_response,
  login_checked, login_found, login_user_by_email, login_user_by_username,
}
use judge_self.Api.AuthService
use judge_self.Api.AuthController.{Accounts, is_email}

-- A name with an @ is an address.
abbrev pub account_of : Accounts → String → Option UserData
account_of acc name =
    if any (λ c. eqb c 64) (codes name)
    then get_user_by_email acc.users name
    else get_user_by_username acc.users name

module _ (bcrypt : Bcrypt) (jwt : Jwt) (access_secret refresh_secret : String) where
  -- The response for the account, if the password is the one that was hashed for it.
  abbrev pub response_for : ℕ → String → Option UserData → Option LoginResponse
  response_for moment password none = none
  response_for moment password (some u) =
      if bcrypt.compare password u.password_hash
      then some (login_response bcrypt jwt access_secret refresh_secret moment u)
      else none

  login_checked_lem :
      (moment : ℕ) (password : String) (o : Option UserData)
      → login_checked bcrypt jwt access_secret refresh_secret moment password o
        ≡ response_for moment password o
  unfolding AuthService.login_user
  login_checked_lem moment password none = refl
  login_checked_lem moment password (some u) =
      elim (Bool-cases (bcrypt.compare password u.password_hash)) [
        | inl e ↦ rw e refl
        | inr e ↦ rw e refl
      ]

  login_found_lem :
      (moment : ℕ) (password : String) (o : Option UserData)
      → login_found bcrypt jwt access_secret refresh_secret moment password o
        ≡ response_for moment password o
  unfolding AuthService.login_user
  login_found_lem moment password none = refl
  login_found_lem moment password (some u) = refl

  abbrev pub answer_for : ℕ → Accounts → String → String → Option LoginResponse
  answer_for moment acc name password =
      if is_email name
      then login_user_by_email bcrypt jwt access_secret refresh_secret acc.users moment name
          password
      else login_user_by_username bcrypt jwt access_secret refresh_secret acc.users moment name
          password

  pub answer_for_lem :
      (moment : ℕ) (acc : Accounts) (name password : String)
      → answer_for moment acc name password ≡ response_for moment password (account_of acc name)
  unfolding login_user_by_email login_user_by_username
  answer_for_lem moment acc name password = elim (Bool-cases (is_email name)) [
    | inl e ↦ rw e (login_checked_lem moment password (get_user_by_email acc.users name))
    | inr e ↦ rw e (login_found_lem moment password (get_user_by_username acc.users name))
  ]
