-- ===== src/Driver/Policies/Views.antt =====
-- driver.py: views of a cluster's policies after an address is added or removed, point by point.
use manila_weka_driver.Prelude.{
  ◌≡◌, sym, ◌∙◌, String, Bool, true, false, ◌==◌, eq_iff, Option, none, some, List, [], ◌∷◌, arith,
  if◌then◌else◌,
}
use manila_weka_driver.Json.{Json}
use manila_weka_driver.Driver.Policies.{member, without}
use manila_weka_driver.Driver.Policies.Store.{View, Same, replaced, with_ip, Reported}

-- Facts about views, point by point.
module _ (v u x : View) (name ip : String) where
  pub with_ip-Same :
      (b : Bool) → Same v u → Same (with_ip u name ip b) x → Same (with_ip v name ip b) x
  with_ip-Same b h k = λ n i. k n i ∙ ground (arith, h n i, h name i)

  pub with_ip_absent :
      ((i : String) → v name i ≡ false) → Same v u → Same (with_ip v name ip false) u
  with_ip_absent e h = λ n i. h n i ∙ ground (arith, eq_iff name n, e i)

  pub without_ip : v name ip ≡ false → Same v u → Same (with_ip v name ip false) u
  without_ip e h = λ n i. h n i ∙ ground (arith, eq_iff name n, eq_iff ip i)

  pub dropped_Same :
      ((i : String) → v name i ≡ true → (ip == i) ≡ true)
      → Same (with_ip v name ip false) u
      → Same (replaced u name (λ _. false)) x
      → Same (with_ip v name ip false) x
  dropped_Same e h k = λ n i. k n i ∙ ground (arith, h n i, e i, eq_iff name n)

  pub created_Same :
      ((i : String) → v name i ≡ false)
      → Same v u
      → Same (replaced u name (λ i. member i (ip ∷ []))) x
      → Same (with_ip v name ip true) x
  created_Same e h k = λ n i. k n i ∙ ground (arith, h n i, e i)

  pub with_ip_present : v name ip ≡ true → Same v u → Same (with_ip v name ip true) u
  with_ip_present e h = λ n i. h n i ∙ ground (arith, eq_iff name n, eq_iff ip i)

pub Reported-Same :
    (v u : View) (Owns : String → Json → Type 0) (name : String) (o : Option Json)
    → Same v u
    → Reported u Owns name o
    → Reported v Owns name o
Reported-Same v u Owns name none h r = λ i. sym (h name i) ∙ r i
Reported-Same v u Owns name (some pol) h (owns, r) = (owns, λ ips e i. r ips e i ∙ h name i)

-- All that is left without `ip` is nothing: the list holds nothing else.
without_nil :
    (ip i : String) (ips : List String)
    → without ip ips ≡ []
    → member i ips ≡ true
    → (ip == i) ≡ true
unfolding without
without_nil ip i [] e h = cc
without_nil ip i (t ∷ ts) e h =
    ground (arith, without_nil ip i ts, eq_iff t ip, eq_iff t i, eq_iff ip i)

pub left_only :
    (ip i : String) (ips : List String)
    → (if member ip ips then without ip ips else ips) ≡ []
    → member i ips ≡ true
    → (ip == i) ≡ true
left_only ip i [] e h = cc
left_only ip i (t ∷ ts) e h = ground (arith, without_nil ip i (t ∷ ts))
