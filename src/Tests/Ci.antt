-- ===== src/Tests/Ci.antt =====
-- Runs of the Gerrit listener on concrete events, and instances of what is proved of it.
use manila_weka_driver.Prelude.{
  if◌then◌else◌, some, none, ◌≡◌, ◌⊎◌, eq_iff, refl, sym, ap, ◌&&◌, Bool, true, false, String, List,
  [], ◌∷◌, ◌==◌, inl, inr, arith,
}
use manila_weka_driver.Exec.{Result, ok, finally, ◌>>=◌, ◌>>◌}
use manila_weka_driver.Exec.Rules.{Keeps, Keeps-lift-bind}
use manila_weka_driver.Json.{Json, str, arr, nil, dict, get_or, index}
use manila_weka_driver.Ci.Listener.{read_trusted_users, Python, Settings, Trigger, trigger_of}
use manila_weka_driver.Ci.Runs.{
  refused, gave, yielded, slept, stream_events, Machine, run_job, run_tests, handle_all, main,
}
use manila_weka_driver.Ci.Runs.Reruns.{handle_all-rerun_all, rerun_all}
use manila_weka_driver.Ci.Runs.Safety.{main-Keeps}

-- Python, where a text is found in itself alone.
abbrev python : Python
python = record {
  found = λ pattern text. text == "run-weka-ci";
  shown = λ v. elim v [ str s ↦ s | _ ↦ "?" ];
}

abbrev settings : Settings
settings = record { auto_run = false; trusted_users = "alice" ∷ [] }

abbrev number_12 : Json
number_12 =
    dict
      (("project", str "openstack/manila") ∷ ("branch", str "master") ∷ ("number", str "12") ∷ [])

abbrev comment_by : String → Json
comment_by user = dict (
    ("type", str "comment-added")
    ∷ ("change", number_12)
    ∷ ("author", dict (("username", str user) ∷ []))
    ∷ ("comment", str "run-weka-ci")
    ∷ ("patchSet", dict (("number", str "3") ∷ ("revision", str "abc") ∷ []))
    ∷ [])

-- A machine that logs what it runs.
abbrev Log : Type 0
Log = List (List String)

abbrev machine : Machine Log
machine = record {
  make_dirs = λ log. (ok tt, log);
  read_state = λ log. (ok (arr nil), log);
  write_state = λ v log. (ok tt, log);
  open_lock = λ log. (ok tt, log);
  lock = λ log. (ok tt, log);
  unlock = λ log. (ok tt, log);
  close_lock = λ log. (ok tt, log);
  run = λ command timeout log. (ok tt, command ∷ log);
  is_unreadable = λ e. true;
}

two_comments :
    (main machine python settings (comment_by "Alice" ∷ comment_by "mallory" ∷ []) []).1
    ≡ ("/opt/weka-ci/ci-runner.sh" ∷ "12" ∷ "3" ∷ "abc" ∷ []) ∷ []
unfolding main ◌>>=◌
two_comments = refl

handle_all-rerun_all_example :
    handle_all machine python settings [] (comment_by "alice" ∷ []) []
    ≡ rerun_all machine python settings [] (comment_by "alice" ∷ []) []
handle_all-rerun_all_example =
    handle_all-rerun_all machine python settings refl (comment_by "alice" ∷ []) [] []

-- Every job in the log is for change 12.
abbrev is_for_12 : List String → Bool
is_for_12 (program ∷ change ∷ rest) = change == "12"
is_for_12 _ = false

abbrev all_for_12 : Log → Bool
all_for_12 [] = true
all_for_12 (command ∷ log) = is_for_12 command && all_for_12 log

one_job-for_12 :
    (change_num patchset_num : String) (revision : Json)
    → change_num ≡ "12"
    → Keeps
        (λ log. all_for_12 log ≡ true)
        (machine.open_lock
          >> finally
              (run_tests machine change_num patchset_num revision)
              (machine.unlock >> machine.close_lock))
unfolding run_tests ◌>>=◌
one_job-for_12 change_num patchset_num revision e = record {
  at = λ log h. ground (arith, e, h, eq_iff change_num "12");
}

run_job-for_12 :
    (t : Trigger) → t.change_num ≡ "12" → Keeps (λ log. all_for_12 log ≡ true) (run_job machine t)
unfolding run_job
run_job-for_12 t e =
    Keeps-lift-bind _ _ λ done _. one_job-for_12 t.change_num t.patchset_num t.revision e

ok_injective : {A : Type 0} (a b : A) → ◌≡◌ {A = Result A} (ok a) (ok b) → a ≡ b
ok_injective a b e = cc

change_12 :
    (change event : Json) (t : Trigger)
    → event ≡ comment_by "alice"
    → get_or "change" (dict []) event ≡ ok change
    → trigger_of python settings change event t.is_recheck ≡ ok t
    → t.change_num ≡ "12"
unfolding get_or trigger_of index
change_12 change event t e of_change of_patchset =
    let its : ◌≡◌ {A = Result Json} (ok (number_12)) (ok change) = rw e at of_change in
    let named : trigger_of python settings number_12 (comment_by "alice") t.is_recheck ≡ ok t =
      rw (sym (ok_injective _ _ its), e) at of_patchset in
    sym (ap (λ (r : Trigger). r.change_num) (ok_injective _ _ named))

main-Keeps_example :
    Keeps (λ log. all_for_12 log ≡ true) (main machine python settings (comment_by "alice" ∷ []))
main-Keeps_example =
    main-Keeps machine python settings (λ log. all_for_12 log ≡ true) (record { at = λ log h. h })
      (record { at = λ log h. h }) (λ v. record { at = λ log h. h }) (comment_by "alice" ∷ [])
      (λ event t received authorized. run_job-for_12 t (
        change_12 authorized.change event t (only received) authorized.of_change
          authorized.of_patchset))
  where
    only : {event : Json} → (event ≡ comment_by "alice") ⊎ ⊥ → event ≡ comment_by "alice"
    only (inl e) = e
    only (inr nowhere) = absurd nowhere

trusted : read_trusted_users " Alice, ,bob" ≡ "Alice" ∷ "bob" ∷ []
unfolding read_trusted_users
trusted = refl

-- Two connections are refused, one gives an event, a blank line and a line that is no JSON.
reconnects :
    stream_events
      (λ line. if line == "{}" then some (dict []) else none)
      1
      (refused ∷ refused ∷ gave ("{}" ∷ " " ∷ "no" ∷ []) ∷ refused ∷ [])
    ≡ slept 1 ∷ slept 2 ∷ yielded (dict []) ∷ slept 1 ∷ slept 2 ∷ []
unfolding stream_events
reconnects = refl
