-- ===== src/Ci/Runs.antt =====
-- ci/gerrit-listener.py: the record of tested patchsets, the runs of the tests, the stream of events
-- with its reconnections, and the main loop.
pub mod Reruns
pub mod Safety
use manila_weka_driver.Prelude.{
  ℕ, ◌*◌, min, String, Bool, true, false, not, ◌&&◌, Option, none, some, List, [], ◌∷◌, ◌++◌, ◌==◌,
  any, map, if◌then◌else◌,
}
use manila_weka_driver.Text.{◌⁺⁺◌}
use manila_weka_driver.Text.Split.{strip}
use manila_weka_driver.Exceptions.{Exc, timed_out, type_error}
use manila_weka_driver.Exec.{
  Result, ok, err, Exec, pure, raise, lift, catching, catching_if, finally, on_option, ◌>>=◌, ◌>>◌,
}
use Prim.Native.String
use manila_weka_driver.Json.{Json, str, arr, obj, of_list, is_text, elements, as_text}
use manila_weka_driver.Ci.Listener.{Python, Settings, Trigger, parse_event}

-- A tested patchset as the record has it, which is a tuple, and the record.
abbrev pub Tested : Type 0
Tested = List (List Json)

unfoldable pub is_pair : (change_num patchset_num : String) → List Json → Bool
unfolding is_text
is_pair change_num patchset_num (c ∷ p ∷ []) = is_text change_num c && is_text patchset_num p
is_pair change_num patchset_num _ = false

-- `(change_num, patchset_num) in tested`
unfoldable pub is_tested : (change_num patchset_num : String) → Tested → Bool
unfolding is_pair
is_tested change_num patchset_num tested = any (is_pair change_num patchset_num) tested

-- `tested.add(…)` and `tested.discard(…)`
unfoldable pub added : (change_num patchset_num : String) → Tested → Tested
unfolding is_tested
added change_num patchset_num tested =
    if is_tested change_num patchset_num tested
    then tested
    else (str change_num ∷ str patchset_num ∷ []) ∷ tested

unfoldable pub discarded : (change_num patchset_num : String) → Tested → Tested
unfolding is_pair
discarded change_num patchset_num [] = []
discarded change_num patchset_num (entry ∷ tested) =
    let rest = discarded change_num patchset_num tested in
    if is_pair change_num patchset_num entry then rest else entry ∷ rest

-- The file's JSON, and the entries read back: `set(tuple(x) for x in json.load(f))`.
unfoldable pub state_json : Tested → Json
state_json tested = arr (of_list (map (λ entry. arr (of_list entry)) tested))

abbrev characters : String → List Json
characters String.[] = []
characters (String.◌∷◌ c s) = str (String.◌∷◌ c String.[]) ∷ characters s

-- What a loop over a value takes: a text's characters, a list's items, a dict's keys.
unfoldable iterated : Json → Result (List Json)
unfolding elements
iterated (str s) = ok (characters s)
iterated v = elements v

-- A tuple that holds a list or a dict cannot be put into a set.
abbrev is_unhashable : Json → Bool
is_unhashable (arr xs) = true
is_unhashable (obj d) = true
is_unhashable _ = false

unfoldable tuple_of : Json → Result (List Json)
unfolding iterated
tuple_of x = elim (iterated x) [
  | err e ↦ err e
  | ok entry ↦ if any is_unhashable entry then err (type_error "unhashable") else ok entry
]

unfoldable pub entries : List Json → Result Tested
unfolding tuple_of
entries [] = ok []
entries (x ∷ xs) =
    let rest = entries xs in
    elim (tuple_of x) [
      | err e ↦ err e
      | ok entry ↦ elim rest [ err e ↦ err e | ok found ↦ ok (entry ∷ found) ]
    ]

-- The machine that runs the tests. A file that is not there raises an OSError, and a text that is
-- no JSON a ValueError; a process that takes too long raises `timed_out`.
pub record Machine (S : Type 0) : Type 0 where
  pub make_dirs : Exec S (Unit {0})
  pub read_state : Exec S Json
  pub write_state : Json → Exec S (Unit {0})
  pub open_lock : Exec S (Unit {0})
  pub lock : Exec S (Unit {0})
  pub unlock : Exec S (Unit {0})
  pub close_lock : Exec S (Unit {0})
  pub run : (command : List String) → (timeout : ℕ) → Exec S (Unit {0})
  -- the state file is missing, or holds no JSON
  pub is_unreadable : Exc → Bool

abbrev pub is_timeout : Exc → Bool
is_timeout (timed_out reason) = true
is_timeout e = false

abbrev pub job_timeout : ℕ
job_timeout = 3600

-- `v[:n]`, which a text and a list have
unfoldable pub sliced : Json → Result (Unit {0})
sliced (str s) = ok tt
sliced (arr xs) = ok tt
sliced v = err (type_error "slice")

module _ {S : Type 0} (machine : Machine S) where
  -- `load_state`, `save_state`, `mark_tested` and `clear_tested`
  unfoldable pub load_state : Exec S Tested
  unfolding entries iterated
  load_state = do
    found ←
        catching_if machine.is_unreadable (do v ← machine.read_state; pure (some v))
          (λ e. pure none)
    on_option found (pure []) (λ v. do items ← lift (iterated v); lift (entries items))

  unfoldable pub save_state : Tested → Exec S (Unit {0})
  unfolding state_json
  save_state tested = machine.write_state (state_json tested)

  unfoldable pub mark_tested : (change_num patchset_num : String) → Tested → Exec S Tested
  unfolding added save_state
  mark_tested change_num patchset_num tested = do
    save_state (added change_num patchset_num tested)
    pure (added change_num patchset_num tested)

  unfoldable pub clear_tested : (change_num patchset_num : String) → Tested → Exec S Tested
  unfolding discarded save_state
  clear_tested change_num patchset_num tested = do
    save_state (discarded change_num patchset_num tested)
    pure (discarded change_num patchset_num tested)

  -- The post of a failure after a run that took too long.
  unfoldable pub post_timeout :
      (change_num patchset_num : String) (revision : Json) → Exec S (Unit {0})
  unfolding as_text
  post_timeout change_num patchset_num revision =
      catching
        (do
          rev ← lift (as_text revision)
          machine.run
              ("/opt/weka-ci/post-results.sh"
                ∷ change_num
                ∷ patchset_num
                ∷ rev
                ∷ "FAILURE"
                ∷ "CI job timed out after 3600s"
                ∷ ("/var/www/ci-logs/" ⁺⁺ (change_num ⁺⁺ ("/" ⁺⁺ patchset_num)))
                ∷ [])
              60)
        (λ e. pure tt)

  -- The `try` of `run_job`, its handlers included; an argument of a command has to be a text.
  unfoldable pub run_tests :
      (change_num patchset_num : String) (revision : Json) → Exec S (Unit {0})
  unfolding as_text post_timeout
  run_tests change_num patchset_num revision =
      catching
        (do
          machine.lock
          rev ← lift (as_text revision)
          machine.run ("/opt/weka-ci/ci-runner.sh" ∷ change_num ∷ patchset_num ∷ rev ∷ [])
              job_timeout)
        (λ e. if is_timeout e then post_timeout change_num patchset_num revision else pure tt)

  -- `run_job`; the log of the start takes a slice of the revision
  unfoldable pub run_job : Trigger → Exec S (Unit {0})
  unfolding sliced run_tests
  run_job t = do
    lift (sliced t.revision)
    machine.open_lock
    finally (run_tests t.change_num t.patchset_num t.revision)
        (machine.unlock >> machine.close_lock)

  module _ (py : Python) (settings : Settings) where
    -- A trigger in `main`.
    unfoldable pub handle_trigger : Tested → Trigger → Exec S Tested
    unfolding clear_tested is_tested mark_tested run_job
    handle_trigger tested t = do
      current ←
          if t.is_recheck then clear_tested t.change_num t.patchset_num tested else pure tested
      if is_tested t.change_num t.patchset_num current
          then pure current
          else (do marked ← mark_tested t.change_num t.patchset_num current; run_job t; pure marked)

    -- One round of the loop in `main`.
    unfoldable pub handle : Tested → Json → Exec S Tested
    unfolding parse_event handle_trigger
    handle tested event = do
      parsed ← lift (parse_event py settings event)
      on_option parsed (pure tested) (handle_trigger tested)

    unfoldable pub handle_all : Tested → List Json → Exec S Tested
    unfolding handle
    handle_all tested [] = pure tested
    handle_all tested (event ∷ events) = handle tested event >>= λ now. handle_all now events

    -- `main`, on the events of the stream
    unfoldable pub main : List Json → Exec S Tested
    unfolding load_state handle_all
    main events = do machine.make_dirs; tested ← load_state; handle_all tested events

-- A connection that is refused, or one that gives lines until it ends or breaks.
pub data Connection : Type 0 where
  refused : Connection
  gave : List String → Connection

pub data Outcome : Type 0 where
  yielded : Json → Outcome
  slept : ℕ → Outcome

-- The events in the lines of a connection; `json.loads` gives nothing for what it cannot decode.
unfoldable pub decoded : (String → Option Json) → List String → List Outcome
unfolding strip
decoded loads [] = []
decoded loads (line ∷ lines) =
    let rest = decoded loads lines in
    if strip line == ""
    then rest
    else elim (loads (strip line)) [ none ↦ rest | some v ↦ yielded v ∷ rest ]

-- `stream_events` from a back-off on: what it yields, and how long it sleeps
unfoldable pub stream_events :
    (String → Option Json) → (backoff : ℕ) → List Connection → List Outcome
unfolding decoded
stream_events loads backoff [] = []
stream_events loads backoff (refused ∷ rest) =
    slept backoff ∷ stream_events loads (min (backoff * 2) 300) rest
stream_events loads backoff (gave lines ∷ rest) =
    decoded loads lines ++ (slept 1 ∷ stream_events loads (min 2 300) rest)
