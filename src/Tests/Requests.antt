-- ===== src/Tests/Requests.antt =====
-- Instances of what is proved of the requests of the client.
use manila_weka_driver.Prelude.{
  ℕ, zero, suc, ◌+◌, ◌*◌, ◌≤◌, ◌<◌, ◌≡◌, refl, none, some, arith, nat_eq, leb, ◌||◌,
}
use manila_weka_driver.Exec.{ok, err, ◌>>=◌}
use manila_weka_driver.Client.{
  Net, Conn, Response, get_method, request, raise_for_status, is_transient,
}
use manila_weka_driver.Client.Sends.{request-sends}
use manila_weka_driver.Client.Retry.{request-lt-400}
use manila_weka_driver.Client.Status.{raise_for_status-is_transient}
use manila_weka_driver.Exceptions.{api_error}

-- A network that counts the requests and answers 200, but 500 to the first one.
abbrev pub answer : ℕ → Response
answer zero = record { status = 500; json = none; text = "busy" }
answer (suc n) = record { status = 200; json = none; text = "" }

abbrev pub net : Net ℕ
net = record {
  send = λ req n. (ok (answer n), suc n);
  sleep = λ t n. n;
  show = λ v. "";
  search = λ pattern text. none;
}

abbrev pub conn : Conn ℕ
conn = record {
  self = record {
    username = "admin";
    password = "secret";
    organization = "Root";
    max_retries = 1;
    access_token = some "t";
    refresh_token = none;
  };
  net = 1;
}

request-sends_example : (request net get_method "cluster" none none conn).1.net ≤ 1 + 4 * (1 + 1)
request-sends_example =
    request-sends net (λ n. n) (λ req n. omega arith) (λ t n. refl) get_method "cluster" none none
      conn

run_request :
    request net get_method "cluster" none none conn ≡ (ok (answer 1), record conn { net = 2 })
unfolding request ◌>>=◌
run_request = refl

request-lt-400_example : (answer 1).status < 400
request-lt-400_example =
    request-lt-400 net get_method "cluster" none none conn (record conn { net = 2 }) (answer 1)
      run_request

busy : raise_for_status net.show (answer 0) "GET" ≡ err (api_error (some 500) "GET: busy")
unfolding raise_for_status
busy = refl

raise_for_status-is_transient_example :
    (400 ≤ 500)
    × (is_transient (api_error (some 500) "GET: busy") ≡ (nat_eq 500 429 || leb 500 500))
raise_for_status-is_transient_example =
    raise_for_status-is_transient net.show (answer 0) "GET" (api_error (some 500) "GET: busy") busy
