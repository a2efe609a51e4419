-- ===== src/Client.antt =====
-- client.py: one REST session. The HTTP library and the clock are the parameter `Net`; tokens,
-- retries, error translation and every API method are the client's own. The methods stand in
-- `Client/Api`.
mod Answers
pub mod Api
pub mod Heap
pub mod Status
pub mod Retry
pub mod Sends
unfoldable pub use Answers.*
use manila_weka_driver.Prelude.{
  ℕ, zero, suc, ◌+◌, ◌*◌, String, Bool, true, false, ◌&&◌, ◌||◌, not, Option, none, some, List, [],
  ◌∷◌, ◌==◌, nat_eq, ltb, leb, min, if◌then◌else◌,
}
use manila_weka_driver.Text.{◌⁺⁺◌, contains_folded}
use manila_weka_driver.Exceptions.{
  Exc, api_error, auth_error, not_found, conflict, rate_limited, capacity_error, connection_error,
  timed_out, value_error, is_api_error, status_code,
}
use manila_weka_driver.Exec.{
  Result, ok, err, Exec, pure, raise, lift, gets, modify, catching, catching_if, ◌>>=◌, ◌>>◌,
}
use manila_weka_driver.Json.{
  or_else, printed, Json, str, null, obj, end, dict, get, get_or, index, truthy, as_text,
  as_optional_text,
}

module _ {N : Type 0} (net : Net N) where
  unfoldable pub send : Request → Exec (Conn N) Response
  send req c = let (r, n) = net.send req c.net in (r, record c { net = n })

  unfoldable pub wait : ℕ → Exec (Conn N) (Unit {0})
  wait seconds c = (ok tt, record c { net = net.sleep seconds c.net })

  -- `resp.json().get('data', resp.json())`
  unfoldable pub login_data : Response → Result Json
  unfolding get_or
  login_data r = elim r.json [
    | none ↦ err (value_error "json")
    | some body ↦ get_or "data" body body
  ]

  -- `self._access_token = data['access_token']`
  unfoldable pub store_access : Json → Exec (Conn N) (Unit {0})
  unfolding index as_optional_text
  store_access tokens = do
    v ← lift (index "access_token" tokens)
    token ← lift (as_optional_text v)
    modify (λ c. record c { self = record c.self { access_token = token } })

  unfoldable pub store_refresh : Json → Exec (Conn N) (Unit {0})
  unfolding as_optional_text
  store_refresh v = do
    token ← lift (as_optional_text v)
    modify (λ c. record c { self = record c.self { refresh_token = token } })

  -- the 403 branch of `_do_login`: waits and raises if the account is locked out
  unfoldable pub check_lockout : Response → Exec (Conn N) (Unit {0})
  unfolding contains_folded parse_lockout_seconds lockout_backoff wait
  check_lockout r =
      if nat_eq r.status 403 && contains_folded "locked out" r.text
      then (wait (lockout_backoff (parse_lockout_seconds net.search r.text))
          >> raise (api_error (some 403) ("/login: " ⁺⁺ r.text)))
      else pure tt

  abbrev login_request : Session → Request
  login_request s = record {
    verb = post;
    path = "/login";
    bearer = none;
    params = none;
    body = some (
        dict (
          ("username", str s.username)
          ∷ ("password", str s.password)
          ∷ ("org", str s.organization)
          ∷ []));
  }

  -- `_do_login`, and `login`, which runs it under the token lock
  unfoldable pub do_login : Exec (Conn N) (Unit {0})
  unfolding send check_lockout raise_for_status login_data store_access store_refresh get_or
  do_login = do
    s ← gets (λ c. c.self)
    r ← send (login_request s)
    check_lockout r
    lift (raise_for_status net.show r "/login")
    tokens ← lift (login_data r)
    store_access tokens
    v ← lift (get_or "refresh_token" null tokens)
    store_refresh v

  unfoldable pub note_refresh : Option Json → Exec (Conn N) Bool
  unfolding store_refresh
  note_refresh none = pure true
  note_refresh (some v) = store_refresh v >> pure true

  -- The body of the `try` in `_refresh_or_login`; true if the token was refreshed.
  unfoldable pub refresh : String → Exec (Conn N) Bool
  unfolding send login_data store_access note_refresh get
  refresh token = do
    r ← send (record {
      verb = post;
      path = "/login/refresh";
      bearer = none;
      params = none;
      body = some (dict (("refresh_token", str token) ∷ []));
    })
    if nat_eq r.status 200
        then (do
          tokens ← lift (login_data r)
          store_access tokens
          found ← lift (get "refresh_token" tokens)
          note_refresh found)
        else pure false

  abbrev usable : Option String → Option String
  usable none = none
  usable (some String.[]) = none
  usable (some t) = some t

  unfoldable pub try_refresh : Option String → Exec (Conn N) Bool
  unfolding refresh
  try_refresh none = pure false
  try_refresh (some t) = catching (refresh t) (λ e. pure false)

  -- `_refresh_or_login`
  unfoldable pub refresh_or_login : Exec (Conn N) (Unit {0})
  unfolding try_refresh do_login
  refresh_or_login = do
    token ← gets (λ c. usable c.self.refresh_token)
    done ← try_refresh token
    if done then pure tt else do_login

  -- One request with the current bearer token, `_headers` included.
  unfoldable pub send_authorized :
      Method → String → Option Json → Option Json → Exec (Conn N) Response
  unfolding send
  send_authorized verb path params body = do
    token ← gets (λ c. usable c.self.access_token)
    send (record { verb = verb; path = path; bearer = token; params = params; body = body })

  -- The `try` of one attempt in `_request`.
  unfoldable pub attempt : Method → String → Option Json → Option Json → Exec (Conn N) Response
  unfolding send_authorized refresh_or_login raise_for_status
  attempt verb path params body = do
    first ← send_authorized verb path params body
    r ←
        if nat_eq first.status 401
        then (refresh_or_login >> send_authorized verb path params body)
        else pure first
    lift (raise_for_status net.show r path)
    pure r

-- `not (exc.status_code and exc.status_code < 500)`
abbrev transient_code : Option ℕ → Bool
transient_code none = true
transient_code (some zero) = true
transient_code (some (suc n)) = not (ltb (suc n) 500)

-- Which exceptions `_request` keeps as `last_exc` and tries again; the others it lets go.
unfoldable pub is_transient : Exc → Bool
is_transient (rate_limited reason) = true
is_transient (connection_error reason) = true
is_transient (timed_out reason) = true
is_transient e = is_api_error e && transient_code (status_code e)

module _ {N : Type 0} (net : Net N) where
  -- The loop of `_request`, with `left` attempts after this one.
  unfoldable pub attempts :
      (left delay : ℕ) → Method → String → Option Json → Option Json → Exec (Conn N) Response
  unfolding attempt is_transient
  attempts zero delay verb path params body = attempt net verb path params body
  attempts (suc left) delay verb path params body =
      let again = attempts left (delay * 2) verb path params body in
      catching_if is_transient (attempt net verb path params body) (λ e. wait net delay >> again)

  -- `_request`
  unfoldable pub request : Method → String → Option Json → Option Json → Exec (Conn N) Response
  unfolding attempts
  request verb path params body = do
    retries ← gets (λ c. c.self.max_retries)
    attempts retries 1 verb path params body
