-- ===== src/AiService/Probe.antt =====
-- apps/ai-service/src/plugins/probe_callbacks.py with src/reid/feature_extractor.py, the crop name of
-- src/storage/crop_saver.py and the event of src/events/event_schemas.py. The metadata of a batch is the list of
-- its frames; an object carries the two ids that uuid4 gives while it is processed. Sending to Kafka does not raise.
pub mod Objects
pub mod Batch
mod Tests
use intelligent_multi_camera.Prelude.{
  ◌>>=◌, ℕ, zero, suc, ◌+◌, ◌%◌, nat_eq, string_eq, ◌<>◌, String, Bool, true, false, not, List, [],
  ◌∷◌, ◌++◌, Option, none, some, Eq, ◌==◌, if◌then◌else◌, length,
}
use intelligent_multi_camera.Prelude.Int.{pos}
use intelligent_multi_camera.Prelude.Text.{str_of}
use intelligent_multi_camera.Prelude.Float.{Float}
use intelligent_multi_camera.Shared.Qdrant.{Client}
use intelligent_multi_camera.AiService.Embedding.{Numpy, l2_normalize}
use intelligent_multi_camera.AiService.GalleryManager.{PersonGalleryManager, upsert_embedding}
use intelligent_multi_camera.AiService.Associator.{
  TrackKey, MtmcAssociator, associate, cleanup_lost_tracks,
}
use intelligent_multi_camera.AiService.Boxes.{Rect}

-- `CLASS_MAPPING.get(class_id, "unknown")`
unfoldable pub class_name : ℕ → String
class_name zero = "person"
class_name (suc zero) = "fire"
class_name (suc (suc zero)) = "smoke"
class_name (suc (suc (suc zero))) = "object"
class_name _ = "unknown"

-- A layer of the tensor output, with the floats of its buffer.
pub record Layer (F : Type 0) : Type 0 where
  pub layer_name : String
  pub buffer : List F

-- The user metadata of an object: `other` is of another type than the tensor output.
pub data UserMeta (F : Type 0) : Type 0 where
  tensor_output : List (Layer F) → UserMeta F
  other : UserMeta F

pub record ObjectMeta (F : Type 0) : Type 0 where
  pub class_id : ℕ
  pub confidence : F
  pub object_id : ℕ
  pub rect_params : Rect F
  pub user_metas : List (UserMeta F)
  pub new_person : String
  pub new_crop : String

-- `has_surface` says whether the frame is mapped, for its crops.
pub record FrameMeta (F : Type 0) : Type 0 where
  pub frame_num : ℕ
  pub source_id : ℕ
  pub timestamp : String
  pub has_surface : Bool
  pub objects : List (ObjectMeta F)

pub record TrackingEvent (F : Type 0) : Type 0 where
  pub event_id : String
  pub timestamp : String
  pub camera_id : String
  pub frame_number : ℕ
  pub class_id : ℕ
  pub object_type : String
  pub confidence : F
  pub tracking_id : ℕ
  pub bbox : Rect F
  pub embedding : List F
  pub crop_path : String
  pub person_uuid : Option String

-- The callbacks' state, with the keys and the events that were sent, oldest first.
pub record DeepStreamProbeCallbacks (Q F : Type 0) : Type 0 where
  pub mtmc : MtmcAssociator F String
  pub gallery_manager : PersonGalleryManager Q
  pub frame_count : ℕ
  pub sent : List (String × TrackingEvent F)

abbrev number : ℕ → String
number n = str_of (pos n)

unfoldable pub features_layer : {F : Type 0} → List (Layer F) → Option (List F)
features_layer [] = none
features_layer (l ∷ layers) =
    let rest = features_layer layers in if l.layer_name == "features" then some l.buffer else rest

abbrev pub keys_of_objects : {F : Type 0} → String → List (ObjectMeta F) → List TrackKey
keys_of_objects camera_id [] = []
keys_of_objects camera_id (obj ∷ objects) =
    (camera_id, obj.object_id) ∷ keys_of_objects camera_id objects

-- `active_track_keys` after the frames of a batch.
abbrev pub keys_of : {F : Type 0} → List (FrameMeta F) → List TrackKey
keys_of [] = []
keys_of (frame ∷ frames) = keys_of_objects (number frame.source_id) frame.objects ++ keys_of frames

module _ {F : Type 0} ⦃fl : Float F⦄ (np : Numpy F) where
  abbrev normalized_or : Option (List F) → List F → List F
  normalized_or none rest = rest
  normalized_or (some raw_embedding) rest = l2_normalize np raw_embedding

  unfoldable pub extract_embedding : List (UserMeta F) → List F
  extract_embedding [] = []
  extract_embedding (other ∷ metas) = extract_embedding metas
  extract_embedding (tensor_output layers ∷ metas) =
      normalized_or (features_layer layers) (extract_embedding metas)

  -- `self.reid_extractor.extract(obj_meta) or []`
  unfoldable pub extract : ℕ → List (UserMeta F) → List F
  extract embedding_dim metas =
      let embedding = extract_embedding metas in
      if length embedding == embedding_dim then embedding else []

  module _ {Q : Type 0} (api : Client Q F) (parse_uuid : String → Option ℕ)
      (collection bucket_name : String) (embedding_dim : ℕ) where
    unfoldable pub save_crop_async : String → String → String
    save_crop_async object_type object_id =
        bucket_name <> "/" <> (object_type <> "/" <> (object_id <> ".jpg"))

    -- The state with the associator's, and with the embedding in the gallery.
    abbrev pub stored_person :
        String
        → String
        → List F
        → DeepStreamProbeCallbacks Q F
        → MtmcAssociator F String
        → String
        → DeepStreamProbeCallbacks Q F
    stored_person camera_id timestamp embedding s mtmc person_uuid =
        let payload = ("camera_id", camera_id) ∷ ("timestamp", timestamp) ∷ [] in
        record s {
          mtmc = mtmc;
          gallery_manager =
              (upsert_embedding api parse_uuid collection person_uuid embedding payload
                s.gallery_manager).0;
        }

    -- The person of an object, and the state after it was resolved; none where the associator raises.
    abbrev pub resolved :
        String
        → String
        → ObjectMeta F
        → List F
        → DeepStreamProbeCallbacks Q F
        → Option (Option String × DeepStreamProbeCallbacks Q F)
    resolved camera_id timestamp obj [] s = some (none, s)
    resolved camera_id timestamp obj (x ∷ embedding) s = do
      (mtmc, person_uuid, is_new) ←
          associate np obj.new_person (camera_id, obj.object_id) (x ∷ embedding) s.mtmc
      some (some person_uuid, stored_person camera_id timestamp (x ∷ embedding) s mtmc person_uuid)

    abbrev pub embedding_of : ObjectMeta F → List F
    embedding_of obj = if obj.class_id == 0 then extract embedding_dim obj.user_metas else []

    abbrev pub published :
        FrameMeta F
        → ObjectMeta F
        → Option String × DeepStreamProbeCallbacks Q F
        → DeepStreamProbeCallbacks Q F
    published frame obj (person_uuid, s) =
        let camera_id = number frame.source_id in
        let object_type = class_name obj.class_id in
        let event : TrackingEvent F = record {
          event_id =
              camera_id
              <> "_"
              <> number frame.frame_num
              <> "_"
              <> number obj.object_id
              <> "_"
              <> number obj.class_id;
          timestamp = frame.timestamp;
          camera_id = camera_id;
          frame_number = frame.frame_num;
          class_id = obj.class_id;
          object_type = object_type;
          confidence = obj.confidence;
          tracking_id = obj.object_id;
          bbox = obj.rect_params;
          embedding = embedding_of obj;
          crop_path = if frame.has_surface then save_crop_async object_type obj.new_crop else "";
          person_uuid = person_uuid;
        } in
        record s { sent = s.sent ++ ((camera_id <> "_" <> number obj.object_id, event) ∷ []) }

    unfoldable pub process_object :
        FrameMeta F
        → ObjectMeta F
        → DeepStreamProbeCallbacks Q F
        → Option (DeepStreamProbeCallbacks Q F)
    process_object frame obj s = do
      r ← resolved (number frame.source_id) frame.timestamp obj (embedding_of obj) s
      some (published frame obj r)

    unfoldable pub process_objects :
        FrameMeta F
        → List (ObjectMeta F)
        → DeepStreamProbeCallbacks Q F
        → Option (DeepStreamProbeCallbacks Q F)
    process_objects frame [] s = some s
    process_objects frame (obj ∷ objects) s = do
      after ← process_object frame obj s
      process_objects frame objects after

    unfoldable pub process_frames :
        List (FrameMeta F) → DeepStreamProbeCallbacks Q F → Option (DeepStreamProbeCallbacks Q F)
    process_frames [] s = some s
    process_frames (frame ∷ frames) s = do
      after ← process_objects frame frame.objects (record s { frame_count = s.frame_count + 1 })
      process_frames frames after

    abbrev pub cleaned : List TrackKey → DeepStreamProbeCallbacks Q F → DeepStreamProbeCallbacks Q F
    cleaned active_track_keys s =
        if s.frame_count % 300 == 0
        then record s { mtmc = cleanup_lost_tracks active_track_keys s.mtmc }
        else s

    -- One batch.
    unfoldable pub tracking_src_pad_buffer_probe :
        List (FrameMeta F) → DeepStreamProbeCallbacks Q F → Option (DeepStreamProbeCallbacks Q F)
    tracking_src_pad_buffer_probe frames s = do
      after ← process_frames frames s
      some (cleaned (keys_of frames) after)
