-- ===== src/AiService/Probe/Objects.antt =====
-- What the probe does with one object.
use intelligent_multi_camera.Prelude.{
  ℕ, ◌+◌, nat_eq, string_eq, pair_eq, ◌≡◌, refl, sym, ◌∙◌, ap, subst, ◌⊎◌, inl, inr, String, List,
  [], ◌∷◌, Option, none, some, arith, length, length-append, All, All-append,
}
use intelligent_multi_camera.Prelude.Dict.{lookup}
use intelligent_multi_camera.Prelude.Float.{Float}
use intelligent_multi_camera.Shared.Qdrant.{Client}
use intelligent_multi_camera.AiService.Embedding.{Numpy, KeepsShape}
use intelligent_multi_camera.AiService.Associator.{TrackKey, MtmcAssociator}
use intelligent_multi_camera.AiService.Associator.Sequential.{IsConsistent, associate-IsConsistent}
use intelligent_multi_camera.AiService.Probe.{
  ObjectMeta, FrameMeta, TrackingEvent, DeepStreamProbeCallbacks, number, extract_embedding,
  extract, stored_person, resolved, embedding_of, published, process_object,
}

-- The cached person of a track is the one that is given, if one is.
abbrev pub Tells : {F : Type 0} → MtmcAssociator F String → TrackKey → Option String → Type 0
Tells m key none = Unit
Tells m key (some p) = lookup key m.track_to_person ≡ some p

-- An event that was sent names the cached person of its track, or none.
abbrev pub Told : {F : Type 0} → MtmcAssociator F String → String × TrackingEvent F → Type 0
Told m (key, e) = Tells m (e.camera_id, e.tracking_id) e.person_uuid

-- The associator is consistent, and everything that was sent agrees with it.
pub record IsSound {Q F : Type 0} ⦃fl : Float F⦄ (n : ℕ) (s : DeepStreamProbeCallbacks Q F)
    : Type 0 where
  pub consistent : IsConsistent n s.mtmc
  pub told : All (Told s.mtmc) s.sent

-- A run of the probe over some objects of some new frames: it does not raise, stays sound, sends one event for each
-- object and counts the frames.
pub record Processed {Q F : Type 0} ⦃fl : Float F⦄ (n objects frames : ℕ)
    (s : DeepStreamProbeCallbacks Q F) (result : Option (DeepStreamProbeCallbacks Q F))
    : Type 0 where
  pub after : DeepStreamProbeCallbacks Q F
  pub returned : result ≡ some after
  pub sound : IsSound n after
  pub count : length after.sent ≡ length s.sent + objects
  pub counted : after.frame_count ≡ s.frame_count + frames

-- From one associator to another that keeps the cached persons.
abbrev Keeps : {F : Type 0} → MtmcAssociator F String → MtmcAssociator F String → Type 0
Keeps m m' =
    (j : TrackKey) (p : String)
    → lookup j m.track_to_person ≡ some p
    → lookup j m'.track_to_person ≡ some p

Tells-kept :
    {F : Type 0} (m m' : MtmcAssociator F String) (key : TrackKey) (o : Option String)
    → Keeps m m'
    → Tells m key o
    → Tells m' key o
Tells-kept m m' key none keeps h = tt
Tells-kept m m' key (some p) keeps h = keeps key p h

Told-kept :
    {F : Type 0} (m m' : MtmcAssociator F String) (sent : List (String × TrackingEvent F))
    → Keeps m m'
    → All (Told m) sent
    → All (Told m') sent
Told-kept m m' [] keeps h = tt
Told-kept m m' ((key, e) ∷ sent) keeps (here, h) = (
  Tells-kept m m' (e.camera_id, e.tracking_id) e.person_uuid keeps here,
  Told-kept m m' sent keeps h,
)

module _ {Q F : Type 0} ⦃fl : Float F⦄ (np : Numpy F) (shape : KeepsShape np) (api : Client Q F)
    (parse_uuid : String → Option ℕ) (collection bucket_name : String) (n : ℕ) where
  embedding_sized :
      (obj : ObjectMeta F)
      → (length (embedding_of np api parse_uuid collection bucket_name n obj) ≡ n)
        ⊎ (embedding_of np api parse_uuid collection bucket_name n obj ≡ [])
  unfolding extract
  embedding_sized obj = elim (nat_eq.dec obj.class_id 0) [
    | no other ↦ inr (ground arith)
    | yes person ↦ elim (nat_eq.dec (length (extract_embedding np obj.user_metas)) n) [
      | yes sized ↦ inl (ground arith)
      | no differ ↦ inr (ground arith)
    ]
  ]

  -- The state in which a person was resolved.
  record Resolved (camera_id timestamp : String) (obj : ObjectMeta F) (embedding : List F)
      (s : DeepStreamProbeCallbacks Q F) : Type 0 where
    person : Option String
    after : DeepStreamProbeCallbacks Q F
    returned :
        resolved np api parse_uuid collection bucket_name n camera_id timestamp obj embedding s
        ≡ some (person, after)
    consistent : IsConsistent n after.mtmc
    tells : Tells after.mtmc (camera_id, obj.object_id) person
    keeps : Keeps s.mtmc after.mtmc
    same_sent : after.sent ≡ s.sent
    same_count : after.frame_count ≡ s.frame_count

  resolves :
      (camera_id timestamp : String) (obj : ObjectMeta F) (embedding : List F)
      (s : DeepStreamProbeCallbacks Q F)
      → (length embedding ≡ n) ⊎ (embedding ≡ [])
      → IsConsistent n s.mtmc
      → Resolved camera_id timestamp obj embedding s
  resolves camera_id timestamp obj [] s sized c = record {
    person = none;
    after = s;
    returned = refl;
    consistent = c;
    tells = tt;
    keeps = λ j p e. e;
    same_sent = refl;
    same_count = refl;
  }
  resolves camera_id timestamp obj (x ∷ embedding) s (inr empty) c = absurd (ground arith)
  resolves camera_id timestamp obj (x ∷ embedding) s (inl sized) c =
      let ((mtmc, p, b), a, c', here, kept) =
        associate-IsConsistent n np shape obj.new_person (camera_id, obj.object_id) (x ∷ embedding)
          s.mtmc sized c in
      record {
        person = some p;
        after =
            stored_person np api parse_uuid collection bucket_name n camera_id timestamp
              (x ∷ embedding) s mtmc p;
        returned = rw a refl;
        consistent = c';
        tells = here;
        keeps = kept;
        same_sent = refl;
        same_count = refl;
      }

  pub process_object-Processed :
      (frame : FrameMeta F) (obj : ObjectMeta F) (s : DeepStreamProbeCallbacks Q F)
      → IsSound n s
      → Processed n 1 0 s (process_object np api parse_uuid collection bucket_name n frame obj s)
  unfolding process_object
  process_object-Processed frame obj s sound =
      let embedding = embedding_of np api parse_uuid collection bucket_name n obj in
      let r =
        resolves (number frame.source_id) frame.timestamp obj embedding s (embedding_sized obj)
          sound.consistent in
      let told = Told-kept s.mtmc r.after.mtmc s.sent r.keeps sound.told in
      record {
        after = published np api parse_uuid collection bucket_name n frame obj (r.person, r.after);
        returned = rw r.returned refl;
        sound = record {
          consistent = r.consistent;
          told =
              All-append (Told r.after.mtmc) r.after.sent _
                (subst (All (Told r.after.mtmc)) (sym r.same_sent) told) (r.tells, tt);
        };
        count =
            length-append r.after.sent _
            ∙ ap (λ (xs : List (String × TrackingEvent F)). length xs + 1) r.same_sent;
        counted = (let same = r.same_count in omega arith);
      }
