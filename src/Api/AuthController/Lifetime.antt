-- ===== src/Api/AuthController/Lifetime.antt =====
-- How long a session lasts: parseToMilliseconds of controllers/auth.controller.ts, with its two uses.
use judge_self.Common.{
  ℕ, suc, ◌-◌, ◌*◌, ◌/◌, String, ◌≡◌, refl, Option, none, some, ◌==◌, if◌then◌else◌,
}
use judge_self.Common.Int.{ℤ, pos, negsuc}
use judge_self.Common.Number.{parse_int}

-- `s.slice(-1)`
unfoldable pub last_character : String → String
last_character String.[] = ""
last_character (String.◌∷◌ c s) =
    let rest = last_character s in if s == "" then String.◌∷◌ c "" else rest

abbrev pub milliseconds_of : String → ℕ
milliseconds_of unit =
    if unit == "d"
    then 24 * 60 * 60 * 1000
    else if unit == "h"
    then 60 * 60 * 1000
    else if unit == "m"
    then 60 * 1000
    else if unit == "s"
    then 1000
    else 1

-- A product with a positive number; NaN stays NaN.
abbrev pub times : ℕ → Option ℤ → Option ℤ
times k none = none
times k (some (pos n)) = some (pos (n * k))
times k (some (negsuc n)) = some (negsuc (suc n * k - 1))

unfoldable pub parse_to_milliseconds : String → Option ℤ
unfolding last_character
parse_to_milliseconds time_str =
    times (milliseconds_of (last_character time_str)) (parse_int time_str)

abbrev pub refresh_token_expiration : String
refresh_token_expiration = "7d"

-- The `maxAge` of the cookie.
abbrev pub cookie_max_age : Option ℤ
cookie_max_age = parse_to_milliseconds refresh_token_expiration

-- The `EX` of the key in Redis, in seconds.
abbrev pub in_seconds : Option ℤ → Option ℕ
in_seconds (some (pos n)) = some (n / 1000)
in_seconds _ = none

-- The cookie and the key live for the same seven days.
cookie_max_age_is : cookie_max_age ≡ some (pos 604800000)
unfolding parse_to_milliseconds last_character parse_int
cookie_max_age_is = refl

key_lifetime_is : in_seconds cookie_max_age ≡ some 604800
unfolding parse_to_milliseconds last_character parse_int
key_lifetime_is = refl
