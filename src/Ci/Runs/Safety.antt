-- ===== src/Ci/Runs/Safety.antt =====
-- ci/gerrit-listener.py: what is kept by the listener, whose jobs are all for events that may start
-- them.
use manila_weka_driver.Prelude.{
  ◌≡◌, ◌⊎◌, inl, inr, refl, ap, ◌∙◌, String, Option, none, some, List, [], ◌∷◌,
}
use manila_weka_driver.Exec.{Result, ok}
use manila_weka_driver.Exec.Rules.{
  Keeps, Keeps-bind, Keeps-pure, Keeps-lift, Keeps-if, Keeps-catching_if, Keeps-on_option,
  Keeps-lift-bind, keeps_rules,
}
use manila_weka_driver.Json.{Json}
use manila_weka_driver.Ci.Listener.{Python, Settings, Trigger}
use manila_weka_driver.Ci.Listener.Triggers.{Authorized, Starts, parse_event-Authorized}
use manila_weka_driver.Ci.Runs.{
  Machine, Tested, load_state, save_state, mark_tested, clear_tested, run_job, handle_trigger,
  handle, handle_all, main,
}

-- An event of a list.
abbrev pub Received : Json → List Json → Type 0
Received event [] = ⊥
Received event (e ∷ es) = (event ≡ e) ⊎ Received event es

starts_at :
    (Q : Trigger → Type 0) (r : Result (Option Trigger)) (t : Trigger)
    → r ≡ ok (some t)
    → Starts Q r
    → Q t
starts_at Q r t e q = rw e at q

module _ {S : Type 0} (machine : Machine S) (py : Python) (settings : Settings) (P : S → Type 0)
    (dirs : Keeps P machine.make_dirs) (reads : Keeps P machine.read_state)
    (writes : (v : Json) → Keeps P (machine.write_state v)) where
  load_state-Keeps : Keeps P (load_state machine)
  unfolding load_state
  load_state-Keeps =
      Keeps-bind _ _
        (Keeps-catching_if _ _ _ (Keeps-bind _ _ reads λ v. Keeps-pure _) λ e _. Keeps-pure none)
        λ found.
          Keeps-on_option found _ _ (λ _. Keeps-pure [])
            λ v _. Keeps-bind _ _ (Keeps-lift _) λ items. Keeps-lift _

  mark_tested-Keeps : (c p : String) (tested : Tested) → Keeps P (mark_tested machine c p tested)
  unfolding mark_tested save_state
  mark_tested-Keeps c p tested = search (keeps_rules, writes)

  clear_tested-Keeps : (c p : String) (tested : Tested) → Keeps P (clear_tested machine c p tested)
  unfolding clear_tested save_state
  clear_tested-Keeps c p tested = search (keeps_rules, writes)

  handle_trigger-Keeps :
      (tested : Tested) (t : Trigger)
      → Keeps P (run_job machine t)
      → Keeps P (handle_trigger machine py settings tested t)
  unfolding handle_trigger
  handle_trigger-Keeps tested t runs =
      Keeps-bind _ _
        (Keeps-if _ _ _ (λ _. clear_tested-Keeps t.change_num t.patchset_num tested)
          (λ _. Keeps-pure tested))
        λ current.
          Keeps-if _ _ _ (λ _. Keeps-pure current)
            λ _.
              Keeps-bind _ _ (mark_tested-Keeps t.change_num t.patchset_num current)
                λ marked. Keeps-bind _ _ runs λ _. Keeps-pure marked

  handle-Keeps :
      (event : Json)
      → ((t : Trigger) → Authorized py settings event t → Keeps P (run_job machine t))
      → (tested : Tested) → Keeps P (handle machine py settings tested event)
  unfolding handle
  handle-Keeps event runs tested = Keeps-lift-bind _ _ λ o e.
      Keeps-on_option o _ _ (λ _. Keeps-pure tested)
        λ t e'.
          handle_trigger-Keeps tested t
            (runs t (starts_at _ _ t (e ∙ ap ok e') (parse_event-Authorized py settings event)))

  -- Every job that an event of the list may start keeps `P`.
  abbrev JobsKeep : List Json → Type 0
  JobsKeep events =
      (event : Json) (t : Trigger)
      → Received event events
      → Authorized py settings event t
      → Keeps P (run_job machine t)

  handle_all-Keeps :
      (events : List Json)
      → JobsKeep events
      → (tested : Tested) → Keeps P (handle_all machine py settings tested events)
  unfolding handle_all
  handle_all-Keeps [] runs tested = Keeps-pure tested
  handle_all-Keeps (event ∷ events) runs tested =
      Keeps-bind _ _ (handle-Keeps event (λ t. runs event t (inl refl)) tested)
        λ now. handle_all-Keeps events (λ event' t received. runs event' t (inr received)) now

  -- The listener starts no job but for an event that it received, of a change in the project and on
  -- the branch, that is a new patchset where AUTO_RUN is on or a comment that asks for a run from a
  -- user who may: `main` keeps, whether it returns or raises, every property of the machine that is
  -- kept by the reads and writes of the record and by the jobs of the triggers of such events.
  pub main-Keeps :
      (events : List Json)
      → ((event : Json) (t : Trigger)
          → Received event events
          → Authorized py settings event t
          → Keeps P (run_job machine t))
      → Keeps P (main machine py settings events)
  unfolding main
  main-Keeps events runs =
      Keeps-bind _ _ dirs
        λ _. Keeps-bind _ _ load_state-Keeps λ tested. handle_all-Keeps events runs tested
