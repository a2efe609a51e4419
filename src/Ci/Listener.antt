-- ===== src/Ci/Listener.antt =====
-- ci/gerrit-listener.py: which events of Gerrit start a run of the tests, and the record of what has
-- been tested. Regular expressions, `str` of a value, the file of the record, the lock and the
-- processes are parameters. An exception that `main` does not catch ends the listener.
pub mod Triggers
use manila_weka_driver.Prelude.{
  ℕ, ◌*◌, min, String, Bool, true, false, not, ◌&&◌, ◌||◌, Option, none, some, List, [], ◌∷◌, ◌++◌,
  any, ltb, if◌then◌else◌,
}
use manila_weka_driver.Text.{same_folded, take}
use manila_weka_driver.Text.Split.{split_on, split_if, strip, nonempty}
use manila_weka_driver.Exceptions.{Exc}
use manila_weka_driver.Exec.{
  Result, ok, err, Exec, pure, raise, lift, catching, finally, on_option, ◌>>=◌, ◌>>◌,
}
use manila_weka_driver.Json.{
  Json, null, str, arr, dict, of_list, get, get_or, or_else, truthy, index, is_text, elements,
  as_text,
}

abbrev pub project : String
project = "openstack/manila"

abbrev pub branch : String
branch = "master"

-- `AUTO_RUN` and `TRUSTED_USERS`; the names are compared in lower case.
pub record Settings : Type 0 where
  pub auto_run : Bool
  pub trusted_users : List String

unfoldable pub stripped_all : List String → List String
unfolding strip
stripped_all [] = []
stripped_all (w ∷ ws) = strip w ∷ stripped_all ws

-- The users in the value of CI_TRUSTED_USERS.
unfoldable pub read_trusted_users : String → List String
unfolding split_if nonempty stripped_all
read_trusted_users value = nonempty (stripped_all (split_on b',' value))

-- What `parse_event` returns.
pub record Trigger : Type 0 where
  pub change_num : String
  pub patchset_num : String
  pub revision : Json
  pub is_recheck : Bool

-- Python's part in it: `re.search` with IGNORECASE, and `str` of a value.
pub record Python : Type 0 where
  pub found : (pattern text : String) → Bool
  pub shown : Json → String

module _ (py : Python) (settings : Settings) where
  unfoldable pub trigger_of : (change event : Json) (is_recheck : Bool) → Result Trigger
  unfolding get_or index
  trigger_of change event is_recheck = elim (get_or "patchSet" (dict []) event) [
    | err e ↦ err e
    | ok ps ↦ elim (index "number" change) [
      | err e ↦ err e
      | ok number ↦ elim (index "number" ps) [
        | err e ↦ err e
        | ok ps_number ↦ elim (index "revision" ps) [
          | err e ↦ err e
          | ok revision ↦ ok (record {
            change_num = py.shown number;
            patchset_num = py.shown ps_number;
            revision = revision;
            is_recheck = is_recheck;
          })
        ]
      ]
    ]
  ]

  -- `(event.get('author', {}).get('username') or '')`
  unfoldable pub author_of : Json → Result String
  unfolding get_or get truthy as_text
  author_of event = elim (get_or "author" (dict []) event) [
    | err e ↦ err e
    | ok author ↦ elim (get "username" author) [
      | err e ↦ err e
      | ok name ↦ if truthy (or_else name null) then as_text (or_else name null) else ok ""
    ]
  ]

  -- Whether a comment asks for a run.
  unfoldable pub asks : String → Bool
  asks comment =
      py.found "\\brun-weka-ci\\b" comment
      || (settings.auto_run && py.found "\\brecheck\\b" comment)

  unfoldable pub is_trusted : String → Bool
  unfolding same_folded
  is_trusted author = any (same_folded author) settings.trusted_users

  abbrev pub gated : Bool
  gated = elim settings.trusted_users [ [] ↦ false | user ∷ users ↦ true ]

  -- A comment that asks for a run, by its author.
  unfoldable pub admitted : Json → Result Bool
  unfolding author_of is_trusted
  admitted event =
      if gated
      then elim (author_of event) [ err e ↦ err e | ok author ↦ ok (is_trusted author) ]
      else ok true

  abbrev pub started : Result Trigger → Result (Option Trigger)
  started (ok t) = ok (some t)
  started (err e) = err e

  unfoldable pub commented : (change event : Json) → Result (Option Trigger)
  unfolding get_or as_text asks admitted trigger_of
  commented change event = elim (get_or "comment" (str "") event) [
    | err e ↦ err e
    | ok text ↦ elim (as_text text) [
      | err e ↦ err e
      | ok comment ↦ if not (asks comment) then ok none else elim (admitted event) [
        | err e ↦ err e
        | ok true ↦ started (trigger_of change event true)
        | ok false ↦ ok none
      ]
    ]
  ]

  -- The two kinds of events, of a change in the project and on the branch.
  unfoldable pub by_type : (etype change event : Json) → Result (Option Trigger)
  unfolding is_text trigger_of commented
  by_type etype change event =
      if is_text "patchset-created" etype
      then (if settings.auto_run then started (trigger_of change event false) else ok none)
      else if is_text "comment-added" etype
      then commented change event
      else ok none

  -- `parse_event`
  unfoldable pub parse_event : Json → Result (Option Trigger)
  unfolding get get_or is_text by_type
  parse_event event = elim (get "type" event) [
    | err e ↦ err e
    | ok etype ↦ elim (get_or "change" (dict []) event) [
      | err e ↦ err e
      | ok change ↦ elim (get_or "project" (str "") change) [
        | err e ↦ err e
        | ok p ↦
            if not (is_text project p) then ok none else elim (get_or "branch" (str "") change) [
              | err e ↦ err e
              | ok b ↦
                  if not (is_text branch b)
                  then ok none
                  else by_type (or_else etype null) change event
            ]
      ]
    ]
  ]
