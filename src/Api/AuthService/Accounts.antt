-- ===== src/Api/AuthService/Accounts.antt =====
-- The accounts of services/auth.service.ts: names stay unique, and a password is changed only by who knows
-- it.
use judge_self.Common.{
  ◌≤◌, String, ◌≡◌, ◌≢◌, refl, sym, ◌∙◌, inl, inr, Bool, true, false, none, some, List, [], ◌∷◌,
  ◌++◌, ◌==◌, any, map, find_first, count_if, count_if-append, arith, eq_iff, Bool-cases,
}
use judge_self.Api.AuthService.{
  UserData, Bcrypt, Jwt, get_user_by_id, check_username_exists, check_email_exists,
  change_user_password, with_hash, new_user, register_user, change_password,
}

-- No two users have the same name, and no two the same address.
abbrev pub HasUniqueUsers : List UserData → Type 0
HasUniqueUsers users =
    (text : String)
    → (count_if (λ u. u.username == text) users ≤ 1) × (count_if (λ u. u.email == text) users ≤ 1)

count_if-of_any : {A : Type 0} (p : A → Bool) (xs : List A) → any p xs ≡ false → count_if p xs ≡ 0
count_if-of_any p [] h = refl
count_if-of_any p (x ∷ xs) h = ground (arith, count_if-of_any p xs)

-- A user whose text is new can be added.
count_if-added :
    (f : UserData → String) (users : List UserData) (u : UserData) (text : String)
    → any (λ v. f v == f u) users ≡ false
    → count_if (λ v. f v == text) users ≤ 1
    → count_if (λ v. f v == text) (users ++ u ∷ []) ≤ 1
count_if-added f users u text new h =
    rw (count_if-append (λ v. f v == text) users (u ∷ [])) (elim (Bool-cases (f u == text)) [
      | inl e ↦
          let same = (eq_iff (f u) text).0 e in
          rw (← same) (ground (arith, count_if-of_any (λ v. f v == f u) users new))
      | inr e ↦ ground arith
    ])

module _ (bcrypt : Bcrypt) (jwt : Jwt) (access_secret refresh_secret : String) where
  -- Registering keeps the names and the addresses of the users unique, whichever branch it takes.
  pub register_user-HasUniqueUsers :
      (users : List UserData) (id salt username email password : String)
      → HasUniqueUsers users
      → HasUniqueUsers
          (register_user bcrypt jwt access_secret refresh_secret users id salt username email
            password).0
  unfolding register_user check_username_exists check_email_exists
  register_user-HasUniqueUsers users id salt username email password h text =
      elim (Bool-cases (check_email_exists users email)) [
        | inl e ↦ rw e (h text)
        | inr e ↦ elim (Bool-cases (check_username_exists users username)) [
          | inl n ↦ rw (e, n) (h text)
          | inr n ↦
              let u =
                new_user bcrypt jwt access_secret refresh_secret id salt username email password in
              rw (e, n)
                (
                  count_if-added (λ v. v.username) users u text n (h text).0,
                  count_if-added (λ v. v.email) users u text e (h text).1,
                )
        ]
      ]

  find_first-with_hash :
      (id new_hash : String) (users : List UserData) (u : UserData)
      → find_first (λ v. v.id == id) users ≡ some u
      → find_first (λ v. v.id == id) (map (with_hash id new_hash) users)
        ≡ some (record u { password_hash = new_hash })
  find_first-with_hash id new_hash [] u h = cc
  find_first-with_hash id new_hash (v ∷ vs) u h = elim (Bool-cases (v.id == id)) [
    | inl e ↦ rw (e, e) (rewritten v u (sym (rw e) ∙ h))
    | inr e ↦ rw (e, e) (find_first-with_hash id new_hash vs u (sym (rw e) ∙ h))
  ]
    where
      rewritten :
          (a b : UserData)
          → some a ≡ some b
          → some (record a { password_hash = new_hash })
            ≡ some (record b { password_hash = new_hash })
      rewritten a b e = cc

  find_first-with_hash_other :
      (id new_hash other : String) (users : List UserData)
      → other ≢ id
      → find_first (λ v. v.id == other) (map (with_hash id new_hash) users)
        ≡ find_first (λ v. v.id == other) users
  find_first-with_hash_other id new_hash other [] ne = refl
  find_first-with_hash_other id new_hash other (v ∷ vs) ne = elim (Bool-cases (v.id == id)) [
    | inl e ↦
        let differs : (v.id == other) ≡ false =
          ground (arith, eq_iff v.id id, eq_iff v.id other, ne) in
        rw (e, differs) (find_first-with_hash_other id new_hash other vs ne)
    | inr e ↦ rw (e, find_first-with_hash_other id new_hash other vs ne)
  ]

  -- A user with the right old password gets the new one: there is no error, the row of the user has a hash
  -- that the new password passes and is the same otherwise, and no other user's row changes. With a wrong old
  -- password the users stay as they are and the error says so.
  pub change_password-changes :
      (users : List UserData) (salt id old new : String) (u : UserData)
      → get_user_by_id users id ≡ some u
      → (bcrypt.compare old u.password_hash ≡ true
          → let (users', err) =
              change_password bcrypt jwt access_secret refresh_secret users salt id old new in
            (err ≡ none)
            × ((h : String) × (get_user_by_id users' id ≡ some (record u { password_hash = h }))
                × (bcrypt.compare new h ≡ true))
            × ((other : String)
                → other ≢ id
                → get_user_by_id users' other ≡ get_user_by_id users other))
        × (bcrypt.compare old u.password_hash ≡ false
            → change_password bcrypt jwt access_secret refresh_secret users salt id old new
              ≡ (users, some "Old password is incorrect"))
  unfolding change_password get_user_by_id change_user_password
  change_password-changes users salt id old new u has = (
    (λ right.
        rw (has, right)
          (
            refl,
            (
              bcrypt.hash new salt,
              find_first-with_hash id (bcrypt.hash new salt) users u has,
              bcrypt.compare-hash new salt,
            ),
            (λ other ne. find_first-with_hash_other id (bcrypt.hash new salt) other users ne),
          )),
    (λ wrong. rw (has, wrong) refl),
  )
