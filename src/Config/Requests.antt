-- ===== src/Config/Requests.antt =====
-- config.py and client.py: how many HTTP requests a call of `_request` sends under any configuration
-- that is accepted.
use manila_weka_driver.Prelude.{
  ℕ, ◌+◌, ◌≤◌, ◌≡◌, sym, ◌∙◌, refl, String, Option, none, some, List, [], ◌∷◌, ◌==◌, eq_iff,
  Bool-cases, if_true, if_false, inl, inr, if◌then◌else◌, arith,
}
use manila_weka_driver.Json.{Json}
use manila_weka_driver.Client.{Net, Conn, Request, Method, request}
use manila_weka_driver.Client.Sends.{request-sends}
use manila_weka_driver.Config.{Setting, number, Opt, weka_opts, Fits, Accepted, integer, Kind}

number_injective : (m n : ℕ) → number m ≡ number n → m ≡ n
number_injective m n e = cc

unfoldable kind_of : String → List Opt → Option Kind
kind_of name [] = none
kind_of name (o ∷ os) = if o.name == name then some o.kind else kind_of name os

some_injective : {A : Type 0} (a b : A) → some a ≡ some b → a ≡ b
some_injective a b e = cc

kind_of-Fits :
    (safe_get : String → Setting) (name : String) (k : Kind) (os : List Opt)
    → kind_of name os ≡ some k
    → Accepted safe_get os
    → Fits k (safe_get name)
unfolding kind_of Accepted
kind_of-Fits safe_get name k [] e a = cc
kind_of-Fits safe_get name k (o ∷ os) e (fits, rest) = elim (Bool-cases (o.name == name)) [
  | inl same ↦
      rw (some_injective o.kind k (sym (if_true _ _ _ same) ∙ e)) at rw
        ((eq_iff o.name name).0 same) at fits
  | inr other ↦ kind_of-Fits safe_get name k os (sym (if_false _ _ _ other) ∙ e) rest
]

max_retries_le :
    (safe_get : String → Setting) (n : ℕ)
    → Accepted safe_get weka_opts
    → safe_get "weka_max_api_retries" ≡ number n
    → n ≤ 10
unfolding kind_of weka_opts Fits
max_retries_le safe_get n accepted h =
    let (m, e, low, high) =
      kind_of-Fits safe_get "weka_max_api_retries" (integer 0 10) weka_opts refl accepted in
    omega (arith, high, number_injective n m (sym h ∙ e))

module _ {N : Type 0} (net : Net N) (count : N → ℕ)
    (sends : (req : Request) (n : N) → count (net.send req n).1 ≡ count n + 1)
    (sleeps : (t : ℕ) (n : N) → count (net.sleep t n) ≡ count n) where
  -- In a configuration whose options have values of their kinds and within their bounds, a client
  -- whose `max_retries` is weka_max_api_retries sends at most 44 HTTP requests in one call of
  -- `_request`, whatever the server answers.
  pub request-sends-weka_opts :
      (safe_get : String → Setting) (verb : Method) (path : String) (params : Option Json)
      (body : Option Json) (c : Conn N)
      → Accepted safe_get weka_opts
      → safe_get "weka_max_api_retries" ≡ number c.self.max_retries
      → count (request net verb path params body c).1.net ≤ count c.net + 44
  request-sends-weka_opts safe_get verb path params body c accepted h = omega (
    arith,
    max_retries_le safe_get c.self.max_retries accepted h,
    request-sends net count sends sleeps verb path params body c,
  )
