-- ===== src/Analytics/Tracking/Transaction.antt =====
-- The use case and its transaction keep the tables consistent.
use intelligent_multi_camera.Prelude.{
  ℕ, nat_eq, ◌≡◌, subst, inl, inr, String, string_eq, Bool, true, false, ◌||◌, List, Option, none,
  some, arith, ◌==◌, Option-cases, Bool-cases, if_both,
}
use intelligent_multi_camera.Prelude.Dict.{lookup}
use intelligent_multi_camera.Analytics.Tracking.{
  Alert, Detection, World, VectorStore, match_person, see_known, see_new, log_event,
  handle_person_detection, handle_fire_detection, dispatch, execute, process_message, replace_z,
}
use intelligent_multi_camera.Analytics.Tracking.Counts.{
  IsConsistent, see_known-IsConsistent, see_new-IsConsistent,
}

module _ {F I : Type 0} (store : VectorStore F I) where
  handle_person_detection-IsConsistent :
      (new_id camera_id : String) (timestamp : ℕ) (d : Detection F) (w after : World F I)
      → IsConsistent w
      → lookup new_id w.persons ≡ none
      → handle_person_detection store new_id camera_id timestamp d w ≡ some after
      → IsConsistent after
  unfolding handle_person_detection
  handle_person_detection-IsConsistent new_id camera_id timestamp d w after ok_w fresh h =
      elim (Option-cases (match_person store w.index d.embedding)) [
        | inl raised ↦ absurd (ground arith)
        | inr (none, unmatched) ↦
            elim (Option-cases (see_new store new_id timestamp d.embedding w)) [
              | inl raised ↦ absurd (ground arith)
              | inr (w₁, new) ↦
                  let e : log_event store new_id camera_id timestamp d w₁ ≡ after = ground arith in
                  subst IsConsistent e
                    (see_new-IsConsistent store new_id camera_id timestamp d w w₁ ok_w fresh new)
            ]
        | inr (some id, matched) ↦
            let e : log_event store id camera_id timestamp d (see_known store id timestamp w)
                ≡ after =
              ground arith in
            subst IsConsistent e (see_known-IsConsistent store id camera_id timestamp d w ok_w)
      ]

  -- The index and the alerts do not matter.
  same_tables :
      (index : I) (alerts : List (Alert F)) (w : World F I)
      → IsConsistent w
      → IsConsistent (record w { index = index; alerts = alerts })
  same_tables index alerts w ok_w = record {
    keyed = ok_w.keyed;
    counted = ok_w.counted;
    within = ok_w.within;
  }

  dispatch-IsConsistent :
      (new_id camera_id : String) (timestamp : ℕ) (d : Detection F) (w after : World F I)
      → IsConsistent w
      → lookup new_id w.persons ≡ none
      → dispatch store new_id camera_id timestamp d w ≡ some after
      → IsConsistent after
  unfolding handle_fire_detection
  dispatch-IsConsistent new_id camera_id timestamp d w after ok_w fresh h =
      elim (Bool-cases (d.object_type == "fire" || d.object_type == "smoke")) [
        | inl fire ↦
            let e : handle_fire_detection store camera_id timestamp d w ≡ after = ground arith in
            subst IsConsistent e (
              same_tables w.index (handle_fire_detection store camera_id timestamp d w).alerts w
                ok_w)
        | inr other ↦ elim (Bool-cases (d.object_type == "person")) [
          | inl person ↦
              handle_person_detection-IsConsistent new_id camera_id timestamp d w after ok_w fresh
                (ground arith)
          | inr thing ↦ let e : w ≡ after = ground arith in subst IsConsistent e ok_w
        ]
      ]

  module _ (parse_uuid : String → Option String) (parse_time : String → Option ℕ) where
    execute-IsConsistent :
        (new_id : String) (d : Detection F) (w after : World F I)
        → IsConsistent w
        → lookup new_id w.persons ≡ none
        → execute store parse_uuid parse_time new_id d w ≡ some after
        → IsConsistent after
    unfolding execute
    execute-IsConsistent new_id d w after ok_w fresh h =
        elim (Option-cases (parse_uuid d.camera_id)) [
          | inl raised ↦ absurd (ground arith)
          | inr (camera_id, known) ↦ elim (Option-cases (parse_time (replace_z d.timestamp))) [
            | inl raised ↦ absurd (ground arith)
            | inr (timestamp, parsed) ↦
                dispatch-IsConsistent new_id camera_id timestamp d w after ok_w fresh (ground arith)
          ]
        ]

    -- Whether or not a message succeeds, the tables stay consistent: each person's number of appearances is the
    -- number of its logged events, which lie between its first and its last appearance. The id of a new person
    -- must be fresh.
    pub process_message-IsConsistent :
        (commits : Bool) (new_id : String) (d : Detection F) (w : World F I)
        → IsConsistent w
        → lookup new_id w.persons ≡ none
        → IsConsistent (process_message store parse_uuid parse_time commits new_id d w).0
    unfolding process_message
    process_message-IsConsistent commits new_id d w ok_w fresh =
        elim (Option-cases (execute store parse_uuid parse_time new_id d w)) [
          | inl raised ↦ rw (raised, process_message) ok_w
          | inr (after, done) ↦
              rw (done, process_message)
                (if_both (λ (r : World F I × Bool). IsConsistent r.0) commits (after, true)
                  (record w { index = after.index; alerts = after.alerts }, false)
                  (execute-IsConsistent new_id d w after ok_w fresh done)
                  (same_tables after.index after.alerts w ok_w))
        ]
