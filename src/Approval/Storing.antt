-- ===== src/Approval/Storing.antt =====
-- What frontend/src/lib/decisionApproval.ts reads after what it has written.
use industrial_safety_intell.Prelude.{String, none, some, ◌≡◌, refl}
use industrial_safety_intell.Prelude.Dict.{set, get-set_self, get-delete}
use industrial_safety_intell.Prelude.Eq.{string_eq, ==-refl}
use industrial_safety_intell.Api.Json.{as_string, get}
use industrial_safety_intell.Approval.{
  DecisionAcknowledgment, Storage, JsonText, KeepsEntry, entry_json, storage_key,
  get_local_acknowledgment, set_local_acknowledgment, clear_local_acknowledgment,
}

module _ {N : Type 0} (t : JsonText N) where
  -- After an acknowledgment that JSON text keeps is stored, it is what is returned and what is read for its assessment,
  -- and after it is cleared nothing is.
  pub acknowledgment_kept :
      (storage : Storage) (assessment_id note at : String)
      → KeepsEntry t (record { acknowledged_at_iso = at; note = note })
      → ((set_local_acknowledgment t storage assessment_id note at).0
          ≡ record { acknowledged_at_iso = at; note = note })
        × (get_local_acknowledgment t
              (set_local_acknowledgment t storage assessment_id note at).1
              assessment_id
            ≡ some (record { acknowledged_at_iso = at; note = note }))
        × (get_local_acknowledgment t
              (clear_local_acknowledgment t
                (set_local_acknowledgment t storage assessment_id note at).1
                assessment_id)
              assessment_id
            ≡ none)
  unfolding set_local_acknowledgment get_local_acknowledgment clear_local_acknowledgment as_string
      get
  acknowledgment_kept storage assessment_id note at k =
      let entry : DecisionAcknowledgment = record { acknowledged_at_iso = at; note = note } in
      let key = storage_key assessment_id in
      let text = t.stringify (entry_json entry) in
      (
        refl,
        rw (get-set_self key text storage, k.stringify_some, k.parse-stringify) refl,
        rw (get-delete key key (set key text storage), ==-refl key) refl,
      )
