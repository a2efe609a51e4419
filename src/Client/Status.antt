-- ===== src/Client/Status.antt =====
-- client.py: what `_raise_for_status` makes of a response, on every status.
use manila_weka_driver.Prelude.{
  ℕ, zero, suc, ◌<◌, ◌≤◌, ◌≡◌, refl, ◌||◌, Bool, true, false, String, nat_eq, ltb, leb, arith,
  if◌then◌else◌,
}
use manila_weka_driver.Exceptions.{Exc}
use manila_weka_driver.Exec.{Result, ok, err}
use manila_weka_driver.Json.{Json}
use manila_weka_driver.Client.{Response, status_error, raise_for_status, is_transient}

-- A response passes exactly if its status is below 400.
pub raise_for_status-ok :
    (show : Json → String) (r : Response) (context : String)
    → (raise_for_status show r context ≡ ok tt → r.status < 400)
      × (r.status < 400 → raise_for_status show r context ≡ ok tt)
unfolding raise_for_status
raise_for_status-ok show r context = (λ h. ground arith, λ h. ground arith)

status_error-is_transient :
    (code : ℕ) (msg : String)
    → 400 ≤ code
    → is_transient (status_error code msg) ≡ (nat_eq code 429 || leb 500 code)
unfolding status_error is_transient
status_error-is_transient zero msg h = absurd (omega (arith, h))
status_error-is_transient (suc n) msg h = ground (arith, h)

refused_as :
    (code : ℕ) (low : Bool) (msg : String) (e : Exc)
    → ltb code 400 ≡ low
    → ◌≡◌ {A = Result (Unit {0})} (if low then ok tt else err (status_error code msg)) (err e)
    → (400 ≤ code) × (is_transient e ≡ (nat_eq code 429 || leb 500 code))
refused_as code true msg e low h = cc
refused_as code false msg e low h =
    let high : 400 ≤ code = ground (arith, low) in
    let same : status_error code msg ≡ e = cc in
    (high, rw (← same) (status_error-is_transient code msg high))

-- A response that `_raise_for_status` refuses has a status of 400 or more, and the error that it
-- raises is one that `_request` tries again exactly if the status is 429 or at least 500.
pub raise_for_status-is_transient :
    (show : Json → String) (r : Response) (context : String) (e : Exc)
    → raise_for_status show r context ≡ err e
    → (400 ≤ r.status) × (is_transient e ≡ (nat_eq r.status 429 || leb 500 r.status))
unfolding raise_for_status
raise_for_status-is_transient show r context e h = refused_as r.status _ _ e refl h
