-- ===== src/Tests/Options.antt =====
-- The options with their defaults, and an instance of what is proved of them.
use manila_weka_driver.Prelude.{
  ℕ, ◌≡◌, ◌≤◌, ◌+◌, ◌==◌, refl, inl, inr, arith, true, String, none, List, [], ◌∷◌, if◌then◌else◌,
}
use manila_weka_driver.Client.{Conn, get_method, request}
use manila_weka_driver.Config.{Setting, unset, number, Opt, weka_opts, Fits, Accepted}
use manila_weka_driver.Config.Requests.{request-sends-weka_opts}
use manila_weka_driver.Tests.Requests.{net, conn}

-- A configuration that sets no option.
abbrev defaults : List Opt → String → Setting
defaults [] name = unset
defaults (o ∷ os) name = if o.name == name then o.default else defaults os name

defaults-Accepted : Accepted (defaults weka_opts) weka_opts
unfolding Accepted Fits weka_opts
defaults-Accepted = (
  inl refl,
  (
    inl refl,
    (
      (14000, refl, omega arith),
      (
        (true, refl),
        (
          inr ("admin", refl),
          (
            inl refl,
            (
              inr ("Root", refl),
              (
                inr ("default", refl),
                (
                  inl refl,
                  (
                    inr ("manila-", refl),
                    (
                      inr ("manila", refl),
                      (
                        inr ("/var/lib/manila/weka-tokens", refl),
                        (
                          inl refl,
                          (
                            inr ("/mnt/weka", refl),
                            (
                              (1, refl, omega arith, omega arith),
                              (
                                inl refl,
                                (
                                  (30, refl, omega arith, omega arith),
                                  (
                                    (3, refl, omega arith, omega arith),
                                    (
                                      (4, refl, omega arith, omega arith),
                                      (
                                        (10, refl, omega arith, omega arith),
                                        (inr ("manila_", refl), tt),
                                      ),
                                    ),
                                  ),
                                ),
                              ),
                            ),
                          ),
                        ),
                      ),
                    ),
                  ),
                ),
              ),
            ),
          ),
        ),
      ),
    ),
  ),
)

retries : defaults weka_opts "weka_max_api_retries" ≡ number 3
unfolding weka_opts
retries = refl

abbrev three_retries : Conn ℕ
three_retries = record conn { self = record conn.self { max_retries = 3 } }

request-sends-weka_opts_example :
    (request net get_method "cluster" none none three_retries).1.net ≤ 1 + 44
request-sends-weka_opts_example =
    request-sends-weka_opts net (λ n. n) (λ req n. omega arith) (λ t n. refl) (defaults weka_opts)
      get_method "cluster" none none three_retries defaults-Accepted retries
