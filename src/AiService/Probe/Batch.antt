-- ===== src/AiService/Probe/Batch.antt =====
-- What the probe sends of the frames of a batch, and that no batch makes it raise.
use intelligent_multi_camera.Prelude.{
  ℕ, ◌+◌, ◌%◌, contains, nat_eq, string_eq, pair_eq, ◌≡◌, refl, inl, inr, String, List, [], ◌∷◌,
  Option, none, some, arith, Bool-cases, if◌then◌else◌, length, ◌==◌,
}
use intelligent_multi_camera.Prelude.Dict.{lookup}
use intelligent_multi_camera.Prelude.Float.{Float}
use intelligent_multi_camera.Shared.Qdrant.{Client}
use intelligent_multi_camera.AiService.Embedding.{Numpy, KeepsShape}
use intelligent_multi_camera.AiService.Associator.{TrackKey, cleanup_lost_tracks}
use intelligent_multi_camera.AiService.Associator.Sequential.{
  IsConsistent, cleanup-IsConsistent, lookup-cleanup_lost_tracks,
}
use intelligent_multi_camera.AiService.Probe.{
  ObjectMeta, FrameMeta, DeepStreamProbeCallbacks, process_objects, process_frames, keys_of,
  tracking_src_pad_buffer_probe,
}
use intelligent_multi_camera.AiService.Probe.Objects.{IsSound, Processed, process_object-Processed}

module _ {Q F : Type 0} ⦃fl : Float F⦄ (np : Numpy F) (shape : KeepsShape np) (api : Client Q F)
    (parse_uuid : String → Option ℕ) (collection bucket_name : String) (n : ℕ) where
  process_objects-Processed :
      (frame : FrameMeta F) (objects : List (ObjectMeta F)) (s : DeepStreamProbeCallbacks Q F)
      → IsSound n s
      → Processed n
          (length objects)
          0
          s
          (process_objects np api parse_uuid collection bucket_name n frame objects s)
  unfolding process_objects
  process_objects-Processed frame [] s sound = record {
    after = s;
    returned = refl;
    sound = sound;
    count = omega arith;
    counted = omega arith;
  }
  process_objects-Processed frame (obj ∷ objects) s sound =
      let first =
        process_object-Processed np shape api parse_uuid collection bucket_name n frame obj s
          sound in
      let rest = process_objects-Processed frame objects first.after first.sound in
      record {
        after = rest.after;
        returned = rw first.returned rest.returned;
        sound = rest.sound;
        count = omega (arith, first.count, rest.count);
        counted = omega (arith, first.counted, rest.counted);
      }

  abbrev pub objects_in : List (FrameMeta F) → ℕ
  objects_in [] = 0
  objects_in (frame ∷ frames) = length frame.objects + objects_in frames

  process_frames-Processed :
      (frames : List (FrameMeta F)) (s : DeepStreamProbeCallbacks Q F)
      → IsSound n s
      → Processed n
          (objects_in frames)
          (length frames)
          s
          (process_frames np api parse_uuid collection bucket_name n frames s)
  unfolding process_frames
  process_frames-Processed [] s sound = record {
    after = s;
    returned = refl;
    sound = sound;
    count = omega arith;
    counted = omega arith;
  }
  process_frames-Processed (frame ∷ frames) s sound =
      let counted = record s { frame_count = s.frame_count + 1 } in
      let first =
        process_objects-Processed frame frame.objects counted
          (record { consistent = sound.consistent; told = sound.told }) in
      let rest = process_frames-Processed frames first.after first.sound in
      record {
        after = rest.after;
        returned = rw first.returned rest.returned;
        sound = rest.sound;
        count = omega (arith, first.count, rest.count);
        counted = omega (arith, first.counted, rest.counted);
      }

  -- What a batch does: the state that its frames leave, before the cleanup, and the one after it.
  pub record Probed (frames : List (FrameMeta F)) (s : DeepStreamProbeCallbacks Q F) : Type 0 where
    pub processed : DeepStreamProbeCallbacks Q F
    pub after : DeepStreamProbeCallbacks Q F
    pub returned :
        tracking_src_pad_buffer_probe np api parse_uuid collection bucket_name n frames s
        ≡ some after
    pub from_frames :
        process_frames np api parse_uuid collection bucket_name n frames s ≡ some processed
    pub sound : IsSound n processed
    pub consistent : IsConsistent n after.mtmc
    pub sent : after.sent ≡ processed.sent
    pub count : length after.sent ≡ length s.sent + objects_in frames
    pub active :
        (key : TrackKey)
        → lookup key after.mtmc.track_to_person ≡ (
            if (s.frame_count + length frames) % 300 == 0
            then if contains (keys_of frames) key
              then lookup key processed.mtmc.track_to_person
              else none
            else lookup key processed.mtmc.track_to_person)

  -- From a sound state, a batch does not raise, whatever its metadata: it sends one event for each object, and
  -- every event that names a person names the one that its track is cached with, so that the events of a track
  -- agree; the tracks outside the batch are forgotten exactly when the count of frames, which grows by the frames of
  -- the batch, is then a multiple of 300.
  pub probe_batch :
      (frames : List (FrameMeta F)) (s : DeepStreamProbeCallbacks Q F)
      → IsSound n s
      → Probed frames s
  unfolding tracking_src_pad_buffer_probe
  probe_batch frames s sound =
      let p = process_frames-Processed frames s sound in
      elim (Bool-cases ((s.frame_count + length frames) % 300 == 0)) [
        | inl clean ↦ record {
          processed = p.after;
          after = record p.after { mtmc = cleanup_lost_tracks (keys_of frames) p.after.mtmc };
          returned = rw p.returned (rw p.counted (rw clean refl));
          from_frames = p.returned;
          sound = p.sound;
          consistent = cleanup-IsConsistent n (keys_of frames) p.after.mtmc p.sound.consistent;
          sent = refl;
          count = p.count;
          active = λ key. rw clean (lookup-cleanup_lost_tracks key (keys_of frames) p.after.mtmc);
        }
        | inr busy ↦ record {
          processed = p.after;
          after = p.after;
          returned = rw p.returned (rw p.counted (rw busy refl));
          from_frames = p.returned;
          sound = p.sound;
          consistent = p.sound.consistent;
          sent = refl;
          count = p.count;
          active = λ key. rw busy refl;
        }
      ]
