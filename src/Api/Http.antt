-- ===== src/Api/Http.antt =====
-- What the controllers of main-api/src share: utils/proxy-fetch.ts, utils/req-extract.ts, the user of
-- an authenticated request, and the answers that they send.
use judge_self.Common.{ℕ, String, Option, none, some, List, [], ◌∷◌, ◌==◌, if◌then◌else◌}

-- `string | string[] | undefined`
pub data Param : Type 0 where
  single : String → Param
  several : List String → Param
  undefined : Param

abbrev first_of_list : List String → Option String
first_of_list [] = none
first_of_list (s ∷ rest) = some s

unfoldable pub first_value : Param → Option String
first_value (single s) = some s
first_value (several ss) = first_of_list ss
first_value undefined = none

-- A text that passes `if (!value)`.
abbrev pub truthy : Option String → Option String
truthy none = none
truthy (some s) = if s == "" then none else some s

pub record DecodedToken : Type 0 where
  pub id : String
  pub username : String

-- The body of another service's answer is passed on as it is.
pub data Body : Type 0 where
  message : String → Body
  error : String → Body
  forwarded : String → Body

pub record Reply : Type 0 where
  pub status : ℕ
  pub body : Body

-- A request to another service.
pub record Outgoing : Type 0 where
  pub method : String
  pub url : String
  pub body : String

-- What a handler does: the requests that it sends, and its answer, or an exception.
pub data Result : Type 0 where
  replied : Reply → Result
  thrown : Result

pub record Outcome : Type 0 where
  pub sent : List Outgoing
  pub result : Result

abbrev pub refuse : ℕ → String → Outcome
refuse status text = record {
  sent = [];
  result = replied (record { status = status; body = message text });
}

abbrev pub throws : Outcome
throws = record { sent = []; result = thrown }

-- What `fetch` yields: JSON, or another text, each with the status.
pub data Fetched : Type 0 where
  json : ℕ → String → Fetched
  plain : ℕ → String → Fetched
  failed : Fetched

abbrev pub proxied : Fetched → Reply
proxied (json status body) = record { status = status; body = forwarded body }
proxied (plain status body) = record { status = status; body = message body }
proxied failed = record { status = 502; body = error "Leaderboard service is unavailable" }

-- `proxyFetch`, with the answer sent on.
unfoldable pub proxy_fetch : (Outgoing → Fetched) → Outgoing → Outcome
proxy_fetch fetch request = record {
  sent = request ∷ [];
  result = replied (proxied (fetch request));
}
