-- ===== src/Api/AuthController/Sessions.antt =====
-- The sessions of controllers/auth.controller.ts: what a login and a logout do to the refresh tokens in
-- Redis, and what the route for a new access token answers.
use mathlib.Core.Path.{subst}
use judge_self.Common.{
  ℕ, String, ◌≡◌, ◌≢◌, ◌⊎◌, refl, sym, ap, ◌∙◌, inl, inr, true, false, Option, none, some, ◌==◌,
  eq_iff, eq_refl, Bool-cases, if◌then◌else◌,
}
use judge_self.Api.Http.{DecodedToken, truthy}
use judge_self.Api.AuthService.{UserData, Bcrypt, Jwt, payload_of, login_response}
use judge_self.Api.AuthController.{
  Accounts, AuthReply, failure, logged_in, refresh_key, start_session, login_with, login_user,
  logout_user,
}
use judge_self.Api.AuthController.Credentials.{account_of, response_for, answer_for_lem}

module _ (bcrypt : Bcrypt) (jwt : Jwt) (access_secret refresh_secret : String) where
  truthy_token : (t : String) → t ≢ "" → truthy (some t) ≡ some t
  truthy_token t h = elim (Bool-cases (t == "")) [
    | inl e ↦ absurd (h ((eq_iff t "").0 e))
    | inr e ↦ rw e
  ]

  -- The session that a login opens for the user.
  abbrev pub IsSession : Accounts → UserData → Accounts × AuthReply → Type 0
  IsSession acc u (acc', reply) =
      (access refresh : String) × (reply ≡ logged_in access refresh)
      × (jwt.verify access access_secret ≡ some (payload_of u))
      × (jwt.verify refresh refresh_secret ≡ some (payload_of u))
      × (refresh ≢ "")
      × ((key : String)
          → acc'.keys key ≡ (if refresh_key u.id == key then some refresh else acc.keys key))
      × (acc'.users ≡ acc.users)

  -- A name or a password is missing or empty, and nothing changes.
  abbrev pub IsIncomplete : Accounts → Option String → Option String → Accounts × AuthReply → Type 0
  IsIncomplete acc username password r =
      ((truthy username ≡ none) ⊎ (truthy password ≡ none))
      × (r ≡ (acc, failure 400 "Username and password are required"))

  -- There is no such account, or the password is not its own, and nothing changes.
  abbrev pub IsRefusal : Accounts → String → String → Accounts × AuthReply → Type 0
  IsRefusal acc name text r =
      ((account_of acc name ≡ none)
        ⊎ ((u : UserData) × (account_of acc name ≡ some u)
            × (bcrypt.compare text u.password_hash ≡ false)))
      × (r ≡ (acc, failure 401 "Invalid credentials"))

  -- The account is there, and the password is its own.
  abbrev pub IsLogin : Accounts → String → String → Accounts × AuthReply → Type 0
  IsLogin acc name text r =
      (u : UserData) × (account_of acc name ≡ some u)
      × (bcrypt.compare text u.password_hash ≡ true)
      × IsSession acc u r

  abbrev pub IsAnswer : Accounts → Option String → Option String → Accounts × AuthReply → Type 0
  IsAnswer acc username password r =
      IsIncomplete acc username password r
      ⊎ ((name text : String) × (truthy username ≡ some name)
          × (truthy password ≡ some text)
          × (IsRefusal acc name text r ⊎ IsLogin acc name text r))

  start_session-IsSession :
      (moment : ℕ) (acc : Accounts) (u : UserData)
      → IsSession acc u (
          start_session bcrypt jwt access_secret refresh_secret acc
            (some (login_response bcrypt jwt access_secret refresh_secret moment u)))
  start_session-IsSession moment acc u = (
    jwt.sign moment (payload_of u) access_secret,
    jwt.sign moment (payload_of u) refresh_secret,
    refl,
    jwt.verify-sign moment (payload_of u) access_secret,
    jwt.verify-sign moment (payload_of u) refresh_secret,
    jwt.sign-ne moment (payload_of u) refresh_secret,
    (λ key. refl),
    refl,
  )

  start_session-cases :
      (moment : ℕ) (acc : Accounts) (name text : String) (o : Option UserData)
      → account_of acc name ≡ o
      → let r =
          start_session bcrypt jwt access_secret refresh_secret acc
            (response_for bcrypt jwt access_secret refresh_secret moment text o) in
        IsRefusal acc name text r ⊎ IsLogin acc name text r
  start_session-cases moment acc name text none e = inl (inl e, refl)
  start_session-cases moment acc name text (some u) e =
      elim (Bool-cases (bcrypt.compare text u.password_hash)) [
        | inl right ↦ rw right (inr (u, e, right, start_session-IsSession moment acc u))
        | inr wrong ↦ rw wrong (inl (inr (u, e, wrong), refl))
      ]

  -- A login without a name or a password fails with the status 400. Else the account is that of the
  -- address if the name has an @, and that of the user name if not. Without the account, or if the
  -- password is not the one that was hashed for it, the login fails with the status 401, and a login that
  -- fails changes nothing. With both it yields an access token and a refresh token that are verified to the
  -- account's user, Redis keeps the refresh token under the user's key, and no other key and no account changes.
  pub login_user-IsAnswer :
      (moment : ℕ) (acc : Accounts) (username password : Option String)
      → IsAnswer acc username password
          (login_user bcrypt jwt access_secret refresh_secret moment acc username password)
  unfolding login_user
  login_user-IsAnswer moment acc username password =
      go (truthy username) (truthy password) refl refl
    where
      go :
          (name text : Option String)
          → truthy username ≡ name
          → truthy password ≡ text
          → IsAnswer acc username password
              (login_with bcrypt jwt access_secret refresh_secret moment acc name text)
      go none none n t = inl (inl n, refl)
      go none (some p) n t = inl (inl n, refl)
      go (some a) none n t = inl (inr t, refl)
      go (some a) (some p) n t = inr (
        a,
        p,
        n,
        t,
        rw (answer_for_lem bcrypt jwt access_secret refresh_secret moment acc a p)
            (start_session-cases moment acc a p (account_of acc a) refl),
      )

  logged_in-inj : {a b c d : String} → logged_in a b ≡ logged_in c d → (a ≡ c) × (b ≡ d)
  logged_in-inj h = (cc, cc)

  failure-ne-logged_in : {code : ℕ} {text a b : String} → failure code text ≡ logged_in a b → ⊥
  failure-ne-logged_in h = cc

  -- A login that is answered with tokens has opened a session.
  login_user-IsSession :
      (moment : ℕ) (acc acc' : Accounts) (username password : Option String)
      (access refresh : String)
      → login_user bcrypt jwt access_secret refresh_secret moment acc username password
        ≡ (acc', logged_in access refresh)
      → (u : UserData) × IsSession acc u (acc', logged_in access refresh)
  login_user-IsSession moment acc acc' username password access refresh h =
      go (login_user-IsAnswer moment acc username password)
    where
      result : Accounts × AuthReply
      result = login_user bcrypt jwt access_secret refresh_secret moment acc username password

      go :
          IsAnswer acc username password result
          → (u : UserData) × IsSession acc u (acc', logged_in access refresh)
      go (inl (_, e)) = absurd (failure-ne-logged_in (ap (λ p. p.1) (sym e ∙ h)))
      go (inr (_, _, _, _, inl (_, e))) = absurd (failure-ne-logged_in (ap (λ p. p.1) (sym e ∙ h)))
      go (inr (_, _, _, _, inr (u, _, _, s))) = (u, subst (IsSession acc u) h s)

  -- The user of the session logs out.
  IsSession-logout_user :
      (acc acc' : Accounts) (u : UserData) (reply : AuthReply)
      → IsSession acc u (acc', reply)
      → let out = (logout_user bcrypt jwt access_secret refresh_secret acc' u.id).0 in
        ((key : String) → out.keys key ≡ (if refresh_key u.id == key then none else acc.keys key))
        × (out.users ≡ acc.users)
  unfolding logout_user
  IsSession-logout_user acc acc' u reply (_, refresh, _, _, _, ne, keys, users) = rw kept (
    (λ key. elim (Bool-cases (refresh_key u.id == key)) [
      | inl e ↦ rw e refl
      | inr e ↦ rw e (keys key ∙ (rw e refl))
    ]),
    users,
  )
    where
      kept : truthy (acc'.keys (refresh_key u.id)) ≡ some refresh
      kept =
          ap truthy {y = some refresh}
            (keys (refresh_key u.id) ∙ (rw (eq_refl (refresh_key u.id)) refl))
          ∙ truthy_token refresh ne

  -- The access token that a login yields is verified to a user, and when that user logs out, Redis keeps
  -- no refresh token for the user any more, whatever it kept before the login; every other key, and
  -- every account, is as it was before the login.
  pub login_user-logout_user :
      (moment : ℕ) (acc acc' : Accounts) (username password : Option String)
      (access refresh : String)
      → login_user bcrypt jwt access_secret refresh_secret moment acc username password
        ≡ (acc', logged_in access refresh)
      → (user : DecodedToken) × (jwt.verify access access_secret ≡ some user)
        × (let out = (logout_user bcrypt jwt access_secret refresh_secret acc' user.id).0 in
            ((key : String)
              → out.keys key ≡ (if refresh_key user.id == key then none else acc.keys key))
            × (out.users ≡ acc.users))
  unfolding logout_user
  login_user-logout_user moment acc acc' username password access refresh h =
      let (u, session) = login_user-IsSession moment acc acc' username password access refresh h in
      let (_, _, e, verified, _, _, _, _) = session in
      (
        payload_of u,
        ap (λ t. jwt.verify t access_secret) (logged_in-inj e).0 ∙ verified,
        IsSession-logout_user acc acc' u (logged_in access refresh) session,
      )
