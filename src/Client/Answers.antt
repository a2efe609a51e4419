-- ===== src/Client/Answers.antt =====
-- client.py: the requests and answers of the HTTP library, the fields of a session, and the error
-- that `_raise_for_status` makes of an answer.
use manila_weka_driver.Prelude.{
  ℕ, zero, suc, ◌+◌, ◌*◌, String, Bool, ◌&&◌, ◌||◌, Option, none, some, List, ◌∷◌, ◌==◌, nat_eq,
  ltb, min, if◌then◌else◌,
}
use manila_weka_driver.Text.{◌⁺⁺◌, contains_folded}
use manila_weka_driver.Exceptions.{
  Exc, api_error, auth_error, not_found, conflict, rate_limited, capacity_error,
}
use manila_weka_driver.Exec.{Result, ok, err}
use manila_weka_driver.Json.{or_else, printed, Json, null, get, truthy}

pub data Method : Type 0 where
  get_method post put patch delete : Method

pub record Request : Type 0 where
  pub verb : Method
  pub path : String
  pub bearer : Option String
  pub params : Option Json
  pub body : Option Json

-- `json` is `none` where the body is no JSON.
pub record Response : Type 0 where
  pub status : ℕ
  pub json : Option Json
  pub text : String

-- The HTTP session and the clock: an answer or a raised exception, and a wait in seconds.
pub record Net (N : Type 0) : Type 0 where
  pub send : Request → N → Result Response × N
  pub sleep : ℕ → N → N
  -- `str` of a decoded body, and `re.search` on the text in lower case: the numbers in the groups
  pub show : Json → String
  pub search : String → String → Option (List ℕ)

-- The fields of `WekaApiClient` that its methods read and write.
pub record Session : Type 0 where
  pub username : String
  pub password : String
  pub organization : String
  pub max_retries : ℕ
  pub access_token : Option String
  pub refresh_token : Option String

pub record Conn (N : Type 0) : Type 0 where
  pub self : Session
  pub net : N

-- `_is_capacity_error`
unfoldable pub is_capacity_error : String → Bool
unfolding contains_folded
is_capacity_error msg =
    contains_folded "capacity" msg
    && (contains_folded "not enough" msg
        || (contains_folded "insufficient" msg || contains_folded "no space" msg))

-- `msg = body.get('message') or body.get('error') or str(body)`
body_message : (Json → String) → Json → Result String
unfolding get truthy
body_message show body = elim (get "message" body) [
  | err e ↦ err e
  | ok m ↦
      if truthy (or_else m null)
      then ok (printed show (or_else m null))
      else elim (get "error" body) [
        | err e ↦ err e
        | ok f ↦ ok (printed show (if truthy (or_else f null) then or_else f null else body))
      ]
]

-- Any failure to read the body falls back on the text.
response_message : (Json → String) → Response → String
unfolding body_message
response_message show r =
    let text = if r.text == "" then "no body" else r.text in
    elim r.json [
      | none ↦ text
      | some body ↦ elim (body_message show body) [ ok m ↦ m | err e ↦ text ]
    ]

-- the class and code that an HTTP error becomes
unfoldable pub status_error : ℕ → String → Exc
unfolding is_capacity_error
status_error code msg =
    if nat_eq code 401
    then auth_error msg
    else if nat_eq code 404
    then not_found msg
    else if nat_eq code 409
    then conflict msg
    else if nat_eq code 429
    then rate_limited msg
    else if nat_eq code 400 && is_capacity_error msg
    then capacity_error msg
    else api_error (some code) msg

unfoldable pub raise_for_status : (Json → String) → Response → String → Result (Unit {0})
unfolding status_error response_message
raise_for_status show r context =
    let msg = response_message show r in
    if ltb r.status 400
    then ok tt
    else err (status_error r.status (if context == "" then msg else context ⁺⁺ (": " ⁺⁺ msg)))

-- `_parse_lockout_seconds`; a pattern's groups are the numbers that it found.
unfoldable pub parse_lockout_seconds : (String → String → Option (List ℕ)) → String → Option ℕ
parse_lockout_seconds search body = elim (search "(\\d+)\\s*m\\s*(\\d+)\\s*s" body) [
  | some (m ∷ s ∷ _) ↦ some (m * 60 + s)
  | _ ↦ elim (search "(\\d+)\\s*minute" body) [
    | some (m ∷ _) ↦ some (m * 60)
    | _ ↦ elim (search "(\\d+)\\s*second" body) [
      | some (s ∷ _) ↦ some s
      | _ ↦ elim (search "(\\d+)\\s*m\\b" body) [
        | some (m ∷ _) ↦ some (m * 60)
        | _ ↦ elim (search "(\\d+)\\s*s\\b" body) [ some (s ∷ _) ↦ some s | _ ↦ none ]
      ]
    ]
  ]
]

-- `min((duration or 125) + 5, 150)`
unfoldable pub lockout_backoff : Option ℕ → ℕ
lockout_backoff none = min (125 + 5) 150
lockout_backoff (some zero) = min (125 + 5) 150
lockout_backoff (some (suc d)) = min (suc d + 5) 150
