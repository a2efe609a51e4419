-- ===== src/Ci/Runs/Reruns.antt =====
-- ci/gerrit-listener.py: with AUTO_RUN off the record of tested patchsets stops no run.
use manila_weka_driver.Prelude.{
  ◌≡◌, refl, ap, ◌∙◌, arith, String, Bool, true, false, Option, none, some, List, [], ◌∷◌, inl, inr,
  Bool-cases, if◌then◌else◌,
}
use manila_weka_driver.Exec.{Result, ok, err, Exec, pure, lift, on_option, continue, ◌>>=◌, ◌>>◌}
use manila_weka_driver.Json.{Json}
use manila_weka_driver.Ci.Listener.{
  Python, Settings, Trigger, trigger_of, commented, by_type, parse_event,
}
use manila_weka_driver.Ci.Runs.{
  Machine, Tested, is_pair, is_tested, discarded, save_state, clear_tested, mark_tested, run_job,
  handle_trigger, handle, handle_all,
}

is_tested-discarded :
    (c p : String) (tested : Tested) → is_tested c p (discarded c p tested) ≡ false
unfolding is_tested discarded
is_tested-discarded c p [] = refl
is_tested-discarded c p (entry ∷ tested) = elim (Bool-cases (is_pair c p entry)) [
  | inl gone ↦ rw gone (is_tested-discarded c p tested)
  | inr kept ↦ ground (arith, kept, is_tested-discarded c p tested)
]

module _ (py : Python) (settings : Settings) (manual : settings.auto_run ≡ false) where
  -- A trigger that was parsed is a recheck.
  abbrev IsRecheck : Result (Option Trigger) → Type 0
  IsRecheck (ok (some t)) = t.is_recheck ≡ true
  IsRecheck (ok none) = Unit {0}
  IsRecheck (err e) = Unit {0}

  commented-IsRecheck : (change event : Json) → IsRecheck (commented py settings change event)
  unfolding commented trigger_of
  commented-IsRecheck change event = ground arith

  by_type-IsRecheck :
      (etype change event : Json) → IsRecheck (by_type py settings etype change event)
  unfolding by_type
  by_type-IsRecheck etype change event =
      let said = commented-IsRecheck change event in ground (arith, manual, said)

  parse_event-IsRecheck : (event : Json) → IsRecheck (parse_event py settings event)
  unfolding parse_event
  parse_event-IsRecheck event = grind (arith, by_type-IsRecheck)

module _ {S : Type 0} (machine : Machine S) where
  -- A trigger that runs the tests, whatever the record has.
  unfoldable pub rerun : Tested → Trigger → Exec S Tested
  unfolding clear_tested mark_tested run_job
  rerun tested t = do
    cleared ← clear_tested machine t.change_num t.patchset_num tested
    marked ← mark_tested machine t.change_num t.patchset_num cleared
    run_job machine t
    pure marked

  skip_test :
      {A : Type 0} (test : A → Bool) (x : A) (f : A → Exec S A) (r : Result (Unit {0}) × S)
      → test x ≡ false
      → continue (continue r (λ _. pure x)) (λ y. if test y then pure y else f y)
        ≡ continue (continue r (λ _. pure x)) f
  unfolding pure
  skip_test test x f (ok done, s) e = rw e refl
  skip_test test x f (err e', s) e = refl

  handle_trigger-rerun :
      (py : Python) (settings : Settings) (tested : Tested) (t : Trigger) (s : S)
      → t.is_recheck ≡ true
      → handle_trigger machine py settings tested t s ≡ rerun tested t s
  unfolding handle_trigger rerun clear_tested ◌>>=◌
  handle_trigger-rerun py settings tested t s recheck =
      let fresh = is_tested-discarded t.change_num t.patchset_num tested in
      rw recheck (
        skip_test (is_tested t.change_num t.patchset_num)
          (discarded t.change_num t.patchset_num tested) _
          (save_state machine (discarded t.change_num t.patchset_num tested) s) fresh)

  module _ (py : Python) (settings : Settings) where
    unfoldable rerun_event : Tested → Json → Exec S Tested
    unfolding parse_event rerun
    rerun_event tested event = do
      parsed ← lift (parse_event py settings event)
      on_option parsed (pure tested) (rerun tested)

    -- The loop of `main` without the test of the record.
    unfoldable pub rerun_all : Tested → List Json → Exec S Tested
    unfolding rerun_event
    rerun_all tested [] = pure tested
    rerun_all tested (event ∷ events) = rerun_event tested event >>= λ now. rerun_all now events

    module _ (manual : settings.auto_run ≡ false) where
      handled-rerun :
          (tested : Tested) (r : Result (Option Trigger)) (s : S)
          → IsRecheck py settings manual r
          → continue
              (r, s)
              (λ parsed. on_option parsed (pure tested) (handle_trigger machine py settings tested))
            ≡ continue (r, s) (λ parsed. on_option parsed (pure tested) (rerun tested))
      unfolding on_option
      handled-rerun tested (ok (some t)) s h = handle_trigger-rerun py settings tested t s h
      handled-rerun tested (ok none) s h = refl
      handled-rerun tested (err e) s h = refl

      rest_same :
          (events : List Json)
          → ((tested : Tested) (s : S)
              → handle_all machine py settings tested events s ≡ rerun_all tested events s)
          → (r : Result Tested × S)
          → continue r (λ now. handle_all machine py settings now events)
            ≡ continue r (λ now. rerun_all now events)
      rest_same events h (ok now, s) = h now s
      rest_same events h (err e, s) = refl

      -- With AUTO_RUN off, the loop of `main` does on any events what a loop does that never asks
      -- whether a patchset has been tested, and runs the tests at every trigger: the same end state
      -- of the machine, the same record or the same error.
      pub handle_all-rerun_all :
          (events : List Json) (tested : Tested) (s : S)
          → handle_all machine py settings tested events s ≡ rerun_all tested events s
      unfolding handle_all handle rerun_all rerun_event lift ◌>>=◌
      handle_all-rerun_all [] tested s = refl
      handle_all-rerun_all (event ∷ events) tested s =
          ap (λ r. continue r (λ now. handle_all machine py settings now events))
            (handled-rerun tested (parse_event py settings event) s
              (parse_event-IsRecheck py settings manual event))
          ∙ rest_same events (handle_all-rerun_all events) _
