-- ===== src/Api/Middleware/Verified.antt =====
-- Who gets past authenticate (main-api/src/middleware/auth.ts).
use Prim.Native.String.{◌++◌}
use text.Mathlib.TextLemmas.{nil-append, cons-append}
use judge_self.Common.{
  String, ◌≡◌, ◌≢◌, refl, ap, ◌∙◌, inl, inr, Bool, false, ◌||◌, Option, none, some, ◌==◌, arith,
  eq_iff, Bool-cases,
}
use judge_self.Api.Http.{DecodedToken, Reply, message, truthy}
use judge_self.Api.Middleware.{
  up_to_space, after_space, first_word, bearer, decoded_access, token_access, Handled,
  async_handler, authenticate, protected, proceed,
}

-- The text has a space.
unfoldable pub has_space : String → Bool
has_space String.[] = false
has_space (String.◌∷◌ c s) = String.◌∷◌ c String.[] == " " || has_space s

up_to_space_all : (s : String) → has_space s ≡ false → up_to_space s ≡ s
unfolding up_to_space has_space
up_to_space_all String.[] h = refl
up_to_space_all (String.◌∷◌ c s) h = elim (Bool-cases (String.◌∷◌ c String.[] == " ")) [
  | inl e ↦ absurd (ground arith)
  | inr e ↦ rw e (ap (String.◌∷◌ c) (up_to_space_all s (ground arith)))
]

after_space-append :
    (scheme s : String) → has_space scheme ≡ false → after_space (scheme ++ (" " ++ s)) ≡ some s
unfolding after_space has_space
after_space-append String.[] s h =
    ap after_space
      (nil-append (" " ++ s) ∙ cons-append " " "" s ∙ ap (String.◌∷◌ " ") (nil-append s))
after_space-append (String.◌∷◌ c scheme) s h = elim (Bool-cases (String.◌∷◌ c String.[] == " ")) [
  | inl e ↦ absurd (ground arith)
  | inr e ↦
      ap after_space (cons-append c scheme (" " ++ s))
      ∙ (rw e (after_space-append scheme s (ground arith)))
]

truthy_token : (token : String) → token ≢ "" → truthy (some token) ≡ some token
truthy_token token h = elim (Bool-cases (token == "")) [
  | inl e ↦ absurd (h ((eq_iff token "").0 e))
  | inr e ↦ rw e refl
]

bearer-header :
    (scheme token : String)
    → has_space scheme ≡ false
    → has_space token ≡ false
    → bearer (some (scheme ++ (" " ++ token))) ≡ some token
bearer-header scheme token hs ht =
    ap first_word (after_space-append scheme token hs) ∙ ap some (up_to_space_all token ht)

-- What a route behind the check answers to a token: the handler's answer for the user for whom the token is
-- verified, and else a denial.
abbrev pub answer_to : Option DecodedToken → (DecodedToken → Handled) → Reply
answer_to none handler = record { status = 401; body = message "Access Denied: Invalid token" }
answer_to (some user) handler = async_handler (handler user)

-- A header of a word, a space and a token of one word gets a request to the handler exactly if the token is
-- verified, and then with the user that the verification yields; else it is denied with the
-- status 401.
pub protected-verified :
    (verify : String → Option DecodedToken) (scheme token : String)
    (handler : DecodedToken → Handled)
    → has_space scheme ≡ false
    → has_space token ≡ false
    → token ≢ ""
    → protected verify (some (scheme ++ (" " ++ token))) handler ≡ answer_to (verify token) handler
unfolding protected authenticate
protected-verified verify scheme token handler hs ht hn =
    ap (λ t. proceed (token_access verify (truthy t)) handler) (bearer-header scheme token hs ht)
    ∙ ap (λ t. proceed (token_access verify t) handler) (truthy_token token hn)
    ∙ split (verify token)
  where
    split : (o : Option DecodedToken) → proceed (decoded_access o) handler ≡ answer_to o handler
    split none = refl
    split (some user) = refl
