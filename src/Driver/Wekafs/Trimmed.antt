-- ===== src/Driver/Wekafs/Trimmed.antt =====
-- driver.py: views of a cluster's policies with one policy cut to a list of addresses, at once or
-- one address after the other.
use manila_weka_driver.Prelude.{
  ◌≡◌, ap, ◌∙◌, String, true, false, not, ◌&&◌, ◌||◌, ◌==◌, eq_iff, List, [], ◌∷◌, arith, inl, inr,
  Bool-cases, if◌then◌else◌,
}
use manila_weka_driver.Driver.Policies.{member}
use manila_weka_driver.Driver.Policies.Store.{View, with_ip}

-- The view with the addresses of one policy cut to those of a list.
abbrev pub trimmed : View → String → List String → View
trimmed v name expected n i = if name == n then v n i && member i expected else v n i

-- The view after the addresses of a list that are not in another one are taken out.
unfoldable pub taken_out : View → String → (expected current : List String) → View
taken_out v name expected [] = v
taken_out v name expected (ip ∷ ips) =
    taken_out (if member ip expected then v else with_ip v name ip false) name expected ips

at_name : (v : View) (name n i : String) → (name == n) ≡ true → v name i ≡ v n i
at_name v name n i same = ap (λ m. v m i) ((eq_iff name n).0 same)

taken_out-at :
    (v : View) (name : String) (expected current : List String) (n i : String)
    → taken_out v name expected current n i
      ≡ (if name == n then v n i && (not (member i current) || member i expected) else v n i)
unfolding taken_out
taken_out-at v name expected [] n i = ground arith
taken_out-at v name expected (ip ∷ ips) n i = elim (Bool-cases (member ip expected)) [
  | inl asked ↦ rw asked (taken_out-at v name expected ips n i ∙ ground (arith, asked, eq_iff ip i))
  | inr stale ↦ rw stale (
      taken_out-at (with_ip v name ip false) name expected ips n i
      ∙ ground (arith, stale, eq_iff ip i, at_name v name n i))
]

pub taken_out-trimmed :
    (v : View) (name : String) (expected current : List String)
    → ((i : String) → member i current ≡ v name i)
    → (n i : String) → taken_out v name expected current n i ≡ trimmed v name expected n i
taken_out-trimmed v name expected current h n i =
    taken_out-at v name expected current n i ∙ ground (arith, h i, eq_iff name n)
