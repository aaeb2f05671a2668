-- ===== src/Engine/Startup.antt =====
-- automation-engine/main.go, `loadSave`: the automations that the engine starts with.
use mechanicaldinosaurs.Base.{
  Outcome, ok, err, panic, ◌>>=◌, ◌≡◌, refl, ◌⊎◌, inl, inr, Bool, true, false, if◌then◌else◌,
  Option, none, some, List, [], ◌∷◌, map,
}
use mechanicaldinosaurs.Engine.Context.{Platform}
use mechanicaldinosaurs.Engine.Trigger.{Time, new_trigger}
use mechanicaldinosaurs.Engine.Automation.{
  Automation, AutomationCommunicable, to_automation, to_communicable,
}
use mechanicaldinosaurs.Engine.Automation.RoundTrip.{stored_kind, to_automation-to_communicable}
use mechanicaldinosaurs.Engine.Server.{register_new}

-- A row that `rows.Scan` reads: whole, or with an error and what it has read so far.
pub data Scan (F : Type 0) : Type 0 where
  whole part : AutomationCommunicable F → Scan F

-- The steps on the database that end `loadSave` with an error.
pub data LoadError : Type 0 where
  parse_url connect query : LoadError

module _ {F : Type 0} (p : Platform F) where
  -- The first loop: a row that does not scan is logged, and appended with what the scan has put into it.
  -- The scan has closed the rows by then, so it is the last.
  scan_rows : List (Scan F) → List (AutomationCommunicable F)
  scan_rows [] = []
  scan_rows (part ac ∷ rows) = ac ∷ []
  scan_rows (whole ac ∷ rows) = ac ∷ scan_rows rows

  -- The second loop. Where the conversion fails, the error is logged and `automation.Enabled` is
  -- read through the nil pointer that came with it.
  convert_rows : Time → List (AutomationCommunicable F) → Outcome LoadError (List (Automation F))
  convert_rows now [] = ok []
  convert_rows now (ac ∷ acs) =
      let rest = convert_rows now acs in
      elim (to_automation p ac) [
        | ok a ↦ rest >>= λ as_. ok (register_new now a ∷ as_)
        | err e ↦ panic
        | panic ↦ panic
      ]

  -- `loadSave`, from the error of the database or the rows that it returned.
  unfoldable pub load_save :
      Time → LoadError ⊎ List (Scan F) → Outcome LoadError (List (Automation F))
  unfolding scan_rows convert_rows
  load_save now (inl e) = err e
  load_save now (inr rows) = convert_rows now (scan_rows rows)

  -- What is read of a row.
  abbrev pub content : Scan F → AutomationCommunicable F
  content (whole ac) = ac
  content (part ac) = ac

  -- The rows up to the first that does not scan, that one included.
  abbrev pub is_last : Scan F → Bool
  is_last (whole ac) = false
  is_last (part ac) = true

  abbrev pub until_error : List (Scan F) → List (Scan F)
  until_error [] = []
  until_error (r ∷ rows) = let rest = until_error rows in r ∷ (if is_last r then [] else rest)

  abbrev pub converted : AutomationCommunicable F → Option (Automation F)
  converted ac = elim (to_automation p ac) [ ok a ↦ some a | err e ↦ none | panic ↦ none ]

  -- All the rows converted, or none if one of them does not convert.
  abbrev pub convert_all : List (Scan F) → Option (List (Automation F))
  convert_all [] = some []
  convert_all (r ∷ rows) = both (converted (content r)) (convert_all rows)
    where
      both : Option (Automation F) → Option (List (Automation F)) → Option (List (Automation F))
      both (some a) (some as_) = some (a ∷ as_)
      both _ _ = none

  abbrev pub started : Time → Option (List (Automation F)) → Outcome LoadError (List (Automation F))
  started now none = panic
  started now (some as_) = ok (map (register_new now) as_)

  -- Rows that the engine itself stored never stop it: it starts with the automations that they
  -- hold, each with a new trigger of its stored kind and the flag of the last trigger cleared.
  pub load_save-stored :
      (now : Time) (as_ : List (Automation F))
      → load_save now (inr (map (λ a. whole (to_communicable p a)) as_))
        ≡ ok (
            map
              (λ a. register_new now (record a {
                trigger = new_trigger (stored_kind p a.trigger.kind);
                action_done_on_last_trigger = false;
              }))
              as_)
  unfolding load_save
  load_save-stored now [] = refl
  load_save-stored now (a ∷ as_) =
      rw (to_automation-to_communicable p a, convert_rows) (rw (load_save-stored now as_))
