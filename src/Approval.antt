-- ===== src/Approval.antt =====
-- frontend/src/lib/decisionApproval.ts: an operator's acknowledgment, kept for the session.
pub mod Storing
use industrial_safety_intell.Prelude.{
  String, List, [], ◌∷◌, Option, none, some, false, ◌≡◌, if◌then◌else◌,
}
use industrial_safety_intell.Prelude.Dict.{get as get_item, set as set_item, delete as remove_item}
use industrial_safety_intell.Prelude.Eq.{◌==◌, string_eq}
use industrial_safety_intell.Prelude.Text.{◌⧺◌}
use industrial_safety_intell.Api.Json.{Json, Fields, get, as_string}

pub record DecisionAcknowledgment : Type 0 where
  pub acknowledged_at_iso : String
  pub note : String

-- `sessionStorage`
abbrev pub Storage : Type 0
Storage = List (String × String)

-- STORAGE_PREFIX
abbrev pub storage_key : String → String
storage_key assessment_id = "isip.decision-ack." ⧺ assessment_id

-- The texts of values: `JSON.stringify`, and `JSON.parse` with `none` where it throws.
pub record JsonText (N : Type 0) : Type 0 where
  pub stringify : Json N → String
  pub parse : String → Option (Json N)

abbrev pub entry_json : {N : Type 0} → DecisionAcknowledgment → Json N
entry_json e = Json.obj (
    Fields.field "acknowledgedAtIso" (Json.str e.acknowledged_at_iso)
      (Fields.field "note" (Json.str e.note) Fields.end))

-- What the two are relied on for: the acknowledgment is read as it was written, and its text is not
-- empty.
pub record KeepsEntry {N : Type 0} (t : JsonText N) (e : DecisionAcknowledgment) : Type 0 where
  pub parse-stringify : t.parse (t.stringify (entry_json e)) ≡ some (entry_json e)
  pub stringify_some : (t.stringify (entry_json e) == "") ≡ false

abbrev both_texts : Option String → Option String → Option DecisionAcknowledgment
both_texts (some at) (some note) = some (record { acknowledged_at_iso = at; note = note })
both_texts _ _ = none

module _ {N : Type 0} (t : JsonText N) where
  -- A value that is no object has neither property, and null throws, which is caught.
  abbrev entry_of : Option (Json N) → Option DecisionAcknowledgment
  entry_of (some (Json.obj fs)) =
      both_texts (as_string (get fs "acknowledgedAtIso")) (as_string (get fs "note"))
  entry_of _ = none

  -- `if (!raw)`: an empty text counts as none
  abbrev read_entry : Option String → Option DecisionAcknowledgment
  read_entry none = none
  read_entry (some raw) = if raw == "" then none else entry_of (t.parse raw)

  unfoldable pub get_local_acknowledgment : Storage → String → Option DecisionAcknowledgment
  unfolding get_item as_string get
  get_local_acknowledgment storage assessment_id =
      read_entry (get_item (storage_key assessment_id) storage)

  -- What is returned, and the storage after it.
  unfoldable pub set_local_acknowledgment :
      Storage → String → String → String → DecisionAcknowledgment × Storage
  unfolding set_item
  set_local_acknowledgment storage assessment_id note acknowledged_at_iso =
      let entry : DecisionAcknowledgment = record {
        acknowledged_at_iso = acknowledged_at_iso;
        note = note;
      } in
      (entry, set_item (storage_key assessment_id) (t.stringify (entry_json entry)) storage)

  unfoldable pub clear_local_acknowledgment : Storage → String → Storage
  unfolding remove_item
  clear_local_acknowledgment storage assessment_id = remove_item (storage_key assessment_id) storage
