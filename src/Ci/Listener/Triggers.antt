-- ===== src/Ci/Listener/Triggers.antt =====
-- ci/gerrit-listener.py: what an event that starts a run of the tests is like.
use manila_weka_driver.Prelude.{
  ◌≡◌, ◌⊎◌, refl, ap, sym, ◌∙◌, arith, String, Bool, true, false, not, Option, none, some, List, [],
  ◌∷◌, inl, inr, Bool-cases, if_true, if◌then◌else◌,
}
use manila_weka_driver.Exec.{Result, ok, err}
use manila_weka_driver.Json.{
  Json, str, dict, null, get, get_or, or_else, is_text, is_text-str, as_text,
}
use manila_weka_driver.Ci.Listener.{
  Python, Settings, Trigger, project, branch, trigger_of, author_of, asks, is_trusted, gated,
  admitted, started, commented, by_type, parse_event,
}

-- What a result gives, where it gives a value.
abbrev pub Starts : (Trigger → Type 0) → Result (Option Trigger) → Type 0
Starts Q (ok (some t)) = Q t
Starts Q (ok none) = Unit {0}
Starts Q (err e) = Unit {0}

Starts-imp :
    (Q Q' : Trigger → Type 0)
    → ((t : Trigger) → Q t → Q' t)
    → (r : Result (Option Trigger)) → Starts Q r
    → Starts Q' r
Starts-imp Q Q' f (ok (some t)) q = f t q
Starts-imp Q Q' f (ok none) q = tt
Starts-imp Q Q' f (err e) q = tt

Starts-elim :
    {A : Type 0} (Q : Trigger → Type 0) (r : Result A) (f : A → Result (Option Trigger))
    → ((a : A) → r ≡ ok a → Starts Q (f a))
    → Starts Q (elim r [ err e ↦ err e | ok a ↦ f a ])
Starts-elim Q (ok a) f h = h a refl
Starts-elim Q (err e) f h = tt

Starts-if :
    (Q : Trigger → Type 0) (b : Bool) (r r' : Result (Option Trigger))
    → (b ≡ true → Starts Q r)
    → (b ≡ false → Starts Q r')
    → Starts Q (if b then r else r')
Starts-if Q true r r' h h' = h refl
Starts-if Q false r r' h h' = h' refl

Starts-started :
    (py : Python) (settings : Settings) (Q : Trigger → Type 0) (r : Result Trigger)
    → ((t : Trigger) → r ≡ ok t → Q t)
    → Starts Q (started py settings r)
Starts-started py settings Q (ok t) h = h t refl
Starts-started py settings Q (err e) h = tt

module _ (py : Python) (settings : Settings) where
  -- Anyone may ask for a run where CI_TRUSTED_USERS is empty, and one of those users otherwise.
  abbrev pub IsAdmitted : Json → Type 0
  IsAdmitted event =
      (settings.trusted_users ≡ [])
      ⊎ ((author : String) × (author_of py settings event ≡ ok author)
          × (is_trusted py settings author ≡ true))

  ungated :
      (users : List String) → (elim users [ [] ↦ false | user ∷ rest ↦ true ]) ≡ false → users ≡ []
  ungated [] h = refl
  ungated (user ∷ users) h = cc

  trusted_by :
      (event : Json) (r : Result String)
      → author_of py settings event ≡ r
      → (elim r as (λ _. Result Bool) [
        | err e ↦ err e
        | ok author ↦ ok (is_trusted py settings author)
      ])
        ≡ ok true
      → IsAdmitted event
  trusted_by event (ok author) e h = inr (author, e, cc)
  trusted_by event (err e') e h = cc

  admitted-IsAdmitted : (event : Json) → admitted py settings event ≡ ok true → IsAdmitted event
  unfolding admitted
  admitted-IsAdmitted event h = elim (Bool-cases (gated py settings)) [
    | inl some_users ↦ trusted_by event _ refl (sym (if_true _ _ _ some_users) ∙ h)
    | inr anyone ↦ inl (ungated _ anyone)
  ]

  -- A comment that asks for a run, from someone who may.
  abbrev pub IsRequest : Json → Type 0
  IsRequest event =
      (comment : String) × (get_or "comment" (str "") event ≡ ok (str comment))
      × (asks py settings comment ≡ true)
      × IsAdmitted event

  -- An event that may start the tests: a new patchset where AUTO_RUN is on, or a request.
  abbrev pub MayStart : (etype event : Json) → Type 0
  MayStart etype event =
      (etype ≡ str "patchset-created" × settings.auto_run ≡ true)
      ⊎ (etype ≡ str "comment-added" × IsRequest event)

  -- The event is of a change in the project and on the branch, it may start the tests, and the
  -- trigger is for its patchset.
  pub record Authorized (event : Json) (t : Trigger) : Type 0 where
    pub change : Json
    pub etype : Option Json
    pub of_change : get_or "change" (dict []) event ≡ ok change
    pub of_project : get_or "project" (str "") change ≡ ok (str project)
    pub of_branch : get_or "branch" (str "") change ≡ ok (str branch)
    pub of_type : get "type" event ≡ ok etype
    pub may_start : MayStart (or_else etype null) event
    pub of_patchset : trigger_of py settings change event t.is_recheck ≡ ok t

  abbrev Allowed : (etype change event : Json) → Trigger → Type 0
  Allowed etype change event t =
      MayStart etype event × (trigger_of py settings change event t.is_recheck ≡ ok t)

  trigger_of-is_recheck :
      (change event : Json) (b : Bool) (t : Trigger)
      → trigger_of py settings change event b ≡ ok t
      → t.is_recheck ≡ b
  unfolding trigger_of
  trigger_of-is_recheck change event b t h = ground (arith, h)

  its_trigger :
      (change event : Json) (b : Bool) (t : Trigger)
      → trigger_of py settings change event b ≡ ok t
      → trigger_of py settings change event t.is_recheck ≡ ok t
  its_trigger change event b t h =
      ap (trigger_of py settings change event) (trigger_of-is_recheck change event b t h) ∙ h

  started-Allowed :
      (etype change event : Json) (b : Bool)
      → MayStart etype event
      → Starts
          (Allowed etype change event)
          (started py settings (trigger_of py settings change event b))
  started-Allowed etype change event b may =
      Starts-started py settings (Allowed etype change event)
        (trigger_of py settings change event b) λ t h. (may, its_trigger change event b t h)

  granted-Allowed :
      (etype change event : Json) (b : Bool)
      → (b ≡ true → MayStart etype event)
      → Starts (Allowed etype change event) (elim b [
        | true ↦ started py settings (trigger_of py settings change event true)
        | false ↦ ok none
      ])
  granted-Allowed etype change event true may = started-Allowed etype change event true (may refl)
  granted-Allowed etype change event false may = tt

  as_text-str : (v : Json) (s : String) → as_text v ≡ ok s → v ≡ str s
  unfolding as_text
  as_text-str v s h = ground (arith, h)

  commented-Allowed :
      (etype change event : Json)
      → etype ≡ str "comment-added"
      → Starts (Allowed etype change event) (commented py settings change event)
  unfolding commented
  commented-Allowed etype change event e =
      Starts-elim _ (get_or "comment" (str "") event) _ λ text is_comment.
        Starts-elim _ (as_text text) _ λ comment is_str.
          Starts-if _ (not (asks py settings comment)) _ _ (λ _. tt)
            λ asked. Starts-elim _ (admitted py settings event) _ λ b granted.
              granted-Allowed etype change event b λ yes. inr (
                e,
                (
                  comment,
                  is_comment ∙ ap ok (as_text-str text comment is_str),
                  ground (arith, asked),
                  admitted-IsAdmitted event (granted ∙ ap ok yes),
                ),
              )

  by_type-Allowed :
      (etype change event : Json)
      → Starts (Allowed etype change event) (by_type py settings etype change event)
  unfolding by_type
  by_type-Allowed etype change event =
      Starts-if _ (is_text "patchset-created" etype) _ _
        (λ created.
          Starts-if _ settings.auto_run _ _
            (λ auto. started-Allowed etype change event false (inl (is_text-str _ _ created, auto)))
            (λ _. tt))
        λ _.
          Starts-if _ (is_text "comment-added" etype) _ _
            (λ said. commented-Allowed etype change event (is_text-str _ _ said)) (λ _. tt)

  pub parse_event-Authorized :
      (event : Json) → Starts (Authorized event) (parse_event py settings event)
  unfolding parse_event
  parse_event-Authorized event = Starts-elim _ (get "type" event) _ λ etype of_type.
      Starts-elim _ (get_or "change" (dict []) event) _ λ change of_change.
        Starts-elim _ (get_or "project" (str "") change) _ λ p of_project.
          Starts-if _ (not (is_text project p)) _ _ (λ _. tt)
            λ ours. Starts-elim _ (get_or "branch" (str "") change) _ λ b of_branch.
              Starts-if _ (not (is_text branch b)) _ _ (λ _. tt)
                λ on.
                  Starts-imp (Allowed (or_else etype null) change event) _
                    (λ t (may, its). record {
                      change = change;
                      etype = etype;
                      of_change = of_change;
                      of_project = of_project ∙ ap ok (is_text-str _ _ (ground (arith, ours)));
                      of_branch = of_branch ∙ ap ok (is_text-str _ _ (ground (arith, on)));
                      of_type = of_type;
                      may_start = may;
                      of_patchset = its;
                    })
                    _ (by_type-Allowed (or_else etype null) change event)
