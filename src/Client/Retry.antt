-- ===== src/Client/Retry.antt =====
-- client.py: the retry loop of `_request`: what it returns, which errors end it, and how many
-- requests it sends.
use manila_weka_driver.Prelude.{
  ℕ, zero, suc, ◌*◌, ◌<◌, ◌≡◌, refl, ap, String, Option, nat_eq, if◌then◌else◌,
}
use manila_weka_driver.Exec.{Result, ok, err, pure, lift, gets, ◌>>=◌, ◌>>◌}
use manila_weka_driver.Exec.Rules.{OnOk, Yields, Yields-bind, Yields-catching_if}
use manila_weka_driver.Json.{Json}
use manila_weka_driver.Client.{
  Net, Conn, Response, Method, raise_for_status, send_authorized, refresh_or_login, wait, attempt,
  attempts, request, is_transient,
}
use manila_weka_driver.Client.Status.{raise_for_status-ok}

-- A response that is no HTTP error.
abbrev pub Passed : Response → Type 0
Passed r = r.status < 400

module _ {N : Type 0} (net : Net N) where
  Passed-after :
      (r : Response) (path : String) (x : Result (Unit {0})) (c : Conn N)
      → raise_for_status net.show r path ≡ x
      → OnOk Passed ((lift x >>= λ _. pure r) c).0
  unfolding ◌>>=◌
  Passed-after r path (ok tt) c e = (raise_for_status-ok net.show r path).0 e
  Passed-after r path (err x) c e = tt

  attempt-Passed :
      (verb : Method) (path : String) (params body : Option Json)
      → Yields Passed (attempt net verb path params body)
  unfolding attempt
  attempt-Passed verb path params body =
      Yields-bind (send_authorized net verb path params body) _ λ first.
        Yields-bind
          (if nat_eq first.status 401
            then (refresh_or_login net >> send_authorized net verb path params body)
            else pure first)
          _ λ r. record { at = λ c. Passed-after r path _ c refl }

  attempts-Passed :
      (left delay : ℕ) (verb : Method) (path : String) (params body : Option Json)
      → Yields Passed (attempts net left delay verb path params body)
  unfolding attempts
  attempts-Passed zero delay verb path params body = attempt-Passed verb path params body
  attempts-Passed (suc left) delay verb path params body =
      Yields-catching_if is_transient (attempt net verb path params body) _
        (attempt-Passed verb path params body)
        λ e.
          Yields-bind (wait net delay) _ λ _. attempts-Passed left (delay * 2) verb path params body

  request-Passed :
      (verb : Method) (path : String) (params body : Option Json)
      → Yields Passed (request net verb path params body)
  unfolding request
  request-Passed verb path params body =
      Yields-bind (gets (λ c. c.self.max_retries)) _ λ n. attempts-Passed n 1 verb path params body

  -- Whatever `_request` returns, after whatever retries and logins, has a status below 400.
  pub request-lt-400 :
      (verb : Method) (path : String) (params body : Option Json) (c c' : Conn N) (r : Response)
      → request net verb path params body c ≡ (ok r, c')
      → r.status < 400
  request-lt-400 verb path params body c c' r h =
      rw (ap (λ (x : Result Response × Conn N). x.0) h) at
        ((request-Passed verb path params body).at c)
