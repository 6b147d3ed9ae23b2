-- ===== src/Api/AuthTests.antt =====
-- Runs of the accounts and the sessions, with a token that spells out its payload and a hash that is the
-- password itself.
use Prim.Native.String.{[], ◌∷◌}
use Prim.Native.Char.{Char, code}
use judge_self.Common.{
  String, ◌≡◌, ◌≢◌, refl, sym, ap, List, ◌∙◌, true, false, Option, none, some, ◌==◌, eqb, eq_refl,
  arith, if◌then◌else◌,
}
use judge_self.Api.Http.{DecodedToken}
use judge_self.Api.AuthService
use judge_self.Api.AuthService.{
  get_user_by_username, login_user_by_username, Bcrypt, Jwt, UserData, get_user_by_id,
  change_password, register_user,
}
use judge_self.Api.AuthService.Accounts.{
  HasUniqueUsers, register_user-HasUniqueUsers, change_password-changes,
}
use judge_self.Api.AuthController.{Accounts, logged_in, refresh_key, login_user, logout_user}
use judge_self.Api.AuthController.Sessions.{IsAnswer, login_user-IsAnswer, login_user-logout_user}

-- Each character of the first text after an x, then a y and the second text.
unfoldable encode : String → String → String
encode [] name = "y" ∷ name
encode (c ∷ id) name = "x" ∷ (c ∷ encode id name)

abbrev add_char : Char → Option DecodedToken → Option DecodedToken
add_char c none = none
add_char c (some p) = some (record p { id = c ∷ p.id })

unfoldable decode : String → Option DecodedToken
decode [] = none
decode (k ∷ []) = some (record { id = []; username = [] })
decode (k ∷ (c ∷ s)) =
    let rest = decode s in
    if eqb (code k) 120 then add_char c rest else some (record { id = []; username = c ∷ s })

decode-encode :
    (id name : String) → decode (encode id name) ≡ some (record { id = id; username = name })
unfolding encode decode
decode-encode [] [] = refl
decode-encode [] (c ∷ s) = refl
decode-encode (c ∷ id) name = ap (add_char c) (decode-encode id name)

some-ne-none : (p : DecodedToken) → some p ≢ none
some-ne-none p e = cc

encode-ne : (id name : String) → encode id name ≢ ""
unfolding decode
encode-ne id name e =
    some-ne-none (record { id = id; username = name }) (sym (decode-encode id name) ∙ ap decode e)

abbrev plain_hash : Bcrypt
plain_hash = record {
  hash = λ password salt. password;
  compare = λ password h. password == h;
  compare-hash = λ password salt. eq_refl password;
}

abbrev plain_tokens : Jwt
plain_tokens = record {
  sign = λ moment payload secret. encode payload.id payload.username;
  verify = λ token secret. decode token;
  verify-sign = λ moment payload secret. decode-encode payload.id payload.username;
  sign-ne = λ moment payload secret. encode-ne payload.id payload.username;
}

abbrev ann : UserData
ann = record { id = "u1"; username = "ann"; email = "ann@judge"; password_hash = "secret" }

abbrev one_user : List UserData
one_user = List.◌∷◌ ann List.[]

abbrev accounts : Accounts
accounts = record { users = one_user; keys = λ k. none }

login_user-IsAnswer_example :
    IsAnswer plain_hash plain_tokens "a" "r" accounts
      (some "ann")
      (some "secret")
      (login_user plain_hash plain_tokens "a" "r" 0 accounts (some "ann") (some "secret"))
login_user-IsAnswer_example =
    login_user-IsAnswer plain_hash plain_tokens "a" "r" 0 accounts (some "ann") (some "secret")

-- What the login of ann leaves.
abbrev after_login : Accounts
after_login = (login_user plain_hash plain_tokens "a" "r" 0 accounts (some "ann") (some "secret")).0

abbrev token : String
token = encode "u1" "ann"

is_login :
    login_user plain_hash plain_tokens "a" "r" 0 accounts (some "ann") (some "secret")
    ≡ (after_login, logged_in token token)
unfolding login_user login_user_by_username AuthService.login_user get_user_by_username
is_login = refl

login_user-logout_user_example :
    (user : DecodedToken) × (plain_tokens.verify token "a" ≡ some user)
    × (let out = (logout_user plain_hash plain_tokens "a" "r" after_login user.id).0 in
        ((key : String)
          → out.keys key ≡ (if refresh_key user.id == key then none else accounts.keys key))
        × (out.users ≡ accounts.users))
login_user-logout_user_example =
    login_user-logout_user plain_hash plain_tokens "a" "r" 0 accounts after_login (some "ann")
      (some "secret") token token is_login

-- There is one user.
accounts-HasUniqueUsers : HasUniqueUsers one_user
accounts-HasUniqueUsers text = (ground arith, ground arith)

register_user-HasUniqueUsers_example :
    HasUniqueUsers
      (register_user plain_hash plain_tokens "a" "r" one_user "u2" "salt" "bob" "bob@judge" "pw").0
register_user-HasUniqueUsers_example =
    register_user-HasUniqueUsers plain_hash plain_tokens "a" "r" one_user "u2" "salt" "bob"
      "bob@judge" "pw" accounts-HasUniqueUsers

change_password-changes_example :
    (plain_hash.compare "secret" ann.password_hash ≡ true
      → let (users', err) =
          change_password plain_hash plain_tokens "a" "r" one_user "salt" "u1" "secret" "new" in
        (err ≡ none)
        × ((h : String) × (get_user_by_id users' "u1" ≡ some (record ann { password_hash = h }))
            × (plain_hash.compare "new" h ≡ true))
        × ((other : String)
            → other ≢ "u1"
            → get_user_by_id users' other ≡ get_user_by_id one_user other))
    × (plain_hash.compare "secret" ann.password_hash ≡ false
        → change_password plain_hash plain_tokens "a" "r" one_user "salt" "u1" "secret" "new"
          ≡ (one_user, some "Old password is incorrect"))
unfolding get_user_by_id
change_password-changes_example =
    change_password-changes plain_hash plain_tokens "a" "r" one_user "salt" "u1" "secret" "new" ann
      refl
