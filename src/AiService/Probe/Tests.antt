-- ===== src/AiService/Probe/Tests.antt =====
-- Runs of the probe on hundredths, and its theorem at a concrete batch.
use intelligent_multi_camera.Prelude.{
  ℕ, ◌≡◌, refl, String, true, List, [], ◌∷◌, Option, none, some, arith, nat_eq, string_eq, pair_eq,
}
use intelligent_multi_camera.Prelude.Dict.{lookup, insert, erase}
use intelligent_multi_camera.Prelude.Int.{ℤ, pos, ◌+ℤ◌, ◌-ℤ◌, ◌*ℤ◌}
use intelligent_multi_camera.Prelude.Text.{str_of}
use intelligent_multi_camera.Prelude.Float.{hundredths}
use intelligent_multi_camera.Shared.VectorIds.{PointId}
use intelligent_multi_camera.Shared.VectorStore.Plain.{plain as points}
use intelligent_multi_camera.AiService.Embedding.{
  l2_normalize, average_embeddings, cosine_similarity,
}
use intelligent_multi_camera.AiService.Embedding.Plain.{
  add_vectors, dot_vectors, sum_vectors, norm_1, mean_vectors, plain, plain-KeepsShape,
}
use intelligent_multi_camera.AiService.Gallery.{
  PersonGallery, init, similarity, settle, best_match, match_or_create,
}
use intelligent_multi_camera.AiService.GalleryManager.{upsert_embedding}
use intelligent_multi_camera.AiService.Associator.{erase_all, cleanup_lost_tracks, associate}
use intelligent_multi_camera.AiService.Probe.{
  tensor_output, other, ObjectMeta, FrameMeta, DeepStreamProbeCallbacks, TrackingEvent, class_name,
  features_layer, extract_embedding, extract, save_crop_async, process_object, process_objects,
  process_frames, tracking_src_pad_buffer_probe,
}
use intelligent_multi_camera.AiService.Probe.Objects.{IsSound}
use intelligent_multi_camera.AiService.Probe.Batch.{Probed, probe_batch}

program : Unit {0}
unfolding class_name features_layer extract_embedding extract save_crop_async process_object
    process_objects process_frames tracking_src_pad_buffer_probe upsert_embedding associate
    cleanup_lost_tracks erase_all match_or_create best_match settle similarity init l2_normalize
    average_embeddings cosine_similarity dot_vectors mean_vectors sum_vectors add_vectors norm_1
    ◌+ℤ◌ ◌-ℤ◌ ◌*ℤ◌ lookup insert erase str_of nat_eq string_eq pair_eq
program = tt

abbrev gallery : PersonGallery ℤ String
gallery = init

abbrev start : DeepStreamProbeCallbacks (List PointId) ℤ
start = record {
  mtmc = record { gallery = gallery; track_to_person = [] };
  gallery_manager = none;
  frame_count = 0;
  sent = [];
}

abbrev walker : ObjectMeta ℤ
walker = record {
  class_id = 0;
  confidence = pos 90;
  object_id = 7;
  rect_params = record { left = pos 0; top = pos 0; width = pos 10; height = pos 20 };
  user_metas =
      other
      ∷ tensor_output (record { layer_name = "features"; buffer = pos 100 ∷ pos 0 ∷ [] } ∷ [])
      ∷ [];
  new_person = "ann";
  new_crop = "crop";
}

abbrev smoke : ObjectMeta ℤ
smoke = record walker { class_id = 2; object_id = 8 }

abbrev frame : FrameMeta ℤ
frame = record {
  frame_num = 5;
  source_id = 1;
  timestamp = "now";
  has_surface = true;
  objects = walker ∷ smoke ∷ [];
}

abbrev parse_uuid : String → Option ℕ
parse_uuid s = none

-- The person and the crop of each event.
abbrev told : List (String × TrackingEvent ℤ) → List (String × (Option String × String))
told [] = []
told ((key, e) ∷ sent) = (key, (e.person_uuid, e.crop_path)) ∷ told sent

abbrev sent_by :
    Option (DeepStreamProbeCallbacks (List PointId) ℤ) → List (String × (Option String × String))
sent_by none = []
sent_by (some s) = told s.sent

sends :
    sent_by
      (tracking_src_pad_buffer_probe plain points parse_uuid "people" "crops" 2 (frame ∷ []) start)
    ≡ ("1_7", (some "ann", "crops/person/crop.jpg")) ∷ ("1_8", (none, "crops/smoke/crop.jpg")) ∷ []
unfolding program
sends = refl

start-IsSound : IsSound 2 start
unfolding program
start-IsSound = record {
  consistent = record {
    valid = record { distinct = tt; entries = tt };
    known = λ k p h. ground arith;
  };
  told = tt;
}

probe_batch_example :
    Probed plain plain-KeepsShape points parse_uuid "people" "crops" 2 (frame ∷ []) start
probe_batch_example =
    probe_batch plain plain-KeepsShape points parse_uuid "people" "crops" 2 (frame ∷ []) start
      start-IsSound
