-- ===== src/Client/Sends.antt =====
-- client.py: how many HTTP requests one call of `_request` sends, over any network that counts them.
use manila_weka_driver.Prelude.{
  ℕ, zero, suc, ◌+◌, ◌*◌, ◌≤◌, ◌≡◌, true, false, String, Option, none, some, arith,
}
use manila_weka_driver.Exec.{modify, ◌>>=◌}
use manila_weka_driver.Exec.Rules.{
  Costs, Costs-bind, Costs-free, Costs-pure, Costs-raise, Costs-gets, Costs-catching_if,
  Costs-weaken, Costs-catching, Costs-if,
}
use manila_weka_driver.Json.{Json}
use manila_weka_driver.Client.{
  Net, Conn, Request, Response, Method, send_authorized, refresh_or_login, refresh, do_login,
  check_lockout, store_access, store_refresh, send, wait, attempt, attempts, request, is_transient,
  note_refresh, try_refresh,
}

module _ {N : Type 0} (net : Net N) (count : N → ℕ)
    (sends : (req : Request) (n : N) → count (net.send req n).1 ≡ count n + 1)
    (sleeps : (t : ℕ) (n : N) → count (net.sleep t n) ≡ count n) where
  abbrev total : Conn N → ℕ
  total c = count c.net

  send_cost : (req : Request) → Costs total 1 (send net req)
  unfolding send
  send_cost req = record { at = λ c. omega (arith, sends req c.net) }

  wait_cost : (t : ℕ) → Costs total 0 (wait net t)
  unfolding wait
  wait_cost t = record { at = λ c. omega (arith, sleeps t c.net) }

  check_lockout_cost : (r : Response) → Costs total 0 (check_lockout net r)
  unfolding check_lockout
  check_lockout_cost r =
      Costs-if _ _ _ (Costs-bind _ _ (wait_cost _) λ _. Costs-raise _) (Costs-pure tt)

  store_access_cost : (v : Json) → Costs total 0 (store_access net v)
  unfolding store_access modify
  store_access_cost v =
      Costs-bind _ _ (Costs-free _)
        λ _. Costs-bind {k = 0} _ _ (Costs-free _) λ _. record { at = λ c. omega arith }

  store_refresh_cost : (v : Json) → Costs total 0 (store_refresh net v)
  unfolding store_refresh modify
  store_refresh_cost v = Costs-bind {k = 0} _ _ (Costs-free _) λ _. record { at = λ c. omega arith }

  do_login_cost : Costs total 1 (do_login net)
  unfolding do_login
  do_login_cost = Costs-bind _ _ (Costs-gets _) λ _. Costs-bind _ _ (send_cost _) λ r.
      Costs-bind _ _ (check_lockout_cost r) λ _. Costs-bind _ _ (Costs-free _) λ _.
        Costs-bind _ _ (Costs-free _) λ t.
          Costs-bind _ _ (store_access_cost t) λ _. Costs-bind _ _ (Costs-free _) store_refresh_cost

  refresh_end : (found : Option Json) → Costs total 0 (note_refresh net found)
  unfolding note_refresh
  refresh_end none = Costs-pure true
  refresh_end (some v) = Costs-bind _ _ (store_refresh_cost v) λ _. Costs-pure true

  refresh_cost : (token : String) → Costs total 1 (refresh net token)
  unfolding refresh
  refresh_cost token = Costs-bind _ _ (send_cost _) λ r.
      Costs-if _ _ _
        (Costs-bind _ _ (Costs-free _)
          λ t. Costs-bind _ _ (store_access_cost t) λ _. Costs-bind _ _ (Costs-free _) refresh_end)
        (Costs-pure false)

  try_refresh_cost : (token : Option String) → Costs total 1 (try_refresh net token)
  unfolding try_refresh
  try_refresh_cost none = Costs-weaken 0 1 _ (omega arith) (Costs-pure false)
  try_refresh_cost (some t) = Costs-catching _ _ (refresh_cost t) λ _. Costs-pure false

  refresh_or_login_cost : Costs total 2 (refresh_or_login net)
  unfolding refresh_or_login
  refresh_or_login_cost = Costs-bind _ _ (Costs-gets _) λ t.
      Costs-bind _ _ (try_refresh_cost t)
        λ done. Costs-if done _ _ (Costs-weaken 0 1 _ (omega arith) (Costs-pure tt)) do_login_cost

  module _ (verb : Method) (path : String) (params body : Option Json) where
    authorized_cost : Costs total 1 (send_authorized net verb path params body)
    unfolding send_authorized
    authorized_cost = Costs-bind _ _ (Costs-gets _) λ _. send_cost _

    attempt_cost : Costs total 4 (attempt net verb path params body)
    unfolding attempt
    attempt_cost = Costs-bind _ _ authorized_cost λ r.
        Costs-bind _ _
          (Costs-if _ _ _ (Costs-bind _ _ refresh_or_login_cost λ _. authorized_cost)
            (Costs-weaken 0 3 _ (omega arith) (Costs-pure r)))
          λ r. Costs-bind _ _ (Costs-free _) λ _. Costs-pure r

    attempts_cost :
        (left delay : ℕ)
        → Costs total (4 + left * 4) (attempts net left delay verb path params body)
    unfolding attempts
    attempts_cost zero delay = Costs-weaken 4 _ _ (omega arith) attempt_cost
    attempts_cost (suc left) delay = Costs-weaken (4 + (0 + (4 + left * 4))) _ _ (omega arith) (
        Costs-catching_if is_transient _ _ attempt_cost
          λ _. Costs-bind _ _ (wait_cost delay) λ _. attempts_cost left (delay * 2))

    -- One call of `_request` sends at most four requests for each of its `max_retries + 1` attempts
    -- (the request, a token refresh, a login, the request again), whatever the server answers.
    pub request-sends :
        (c : Conn N)
        → count (request net verb path params body c).1.net
          ≤ count c.net + 4 * (c.self.max_retries + 1)
    unfolding request ◌>>=◌
    request-sends c = omega (arith, (attempts_cost c.self.max_retries 1).at c)
