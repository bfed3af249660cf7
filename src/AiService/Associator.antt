-- ===== src/AiService/Associator.antt =====
-- apps/ai-service/src/reid/mtmc_association.py, class MTMCAssociator: from the local track of a camera
-- to a person. A key is (camera_id, tracking_id).
pub mod Sequential
pub mod Threads
pub mod Race
mod Tests
use intelligent_multi_camera.Prelude.{
  ◌>>=◌, ℕ, String, Bool, true, false, not, List, [], ◌∷◌, Option, none, some, Eq, contains,
  string_eq, nat_eq, pair_eq, keep,
}
use intelligent_multi_camera.Prelude.Dict.{Dict, keys, lookup, insert, erase}
use intelligent_multi_camera.Prelude.Float.{Float}
use intelligent_multi_camera.AiService.Embedding.{Numpy}
use intelligent_multi_camera.AiService.Gallery.{PersonGallery, match_or_create}

abbrev pub TrackKey : Type 0
TrackKey = String × ℕ

pub record MtmcAssociator (F Uid : Type 0) : Type 0 where
  pub gallery : PersonGallery F Uid
  pub track_to_person : Dict TrackKey Uid

-- `for k in stale: del self._track_to_person[k]`
unfoldable pub erase_all : {Uid : Type 0} → List TrackKey → Dict TrackKey Uid → Dict TrackKey Uid
erase_all [] d = d
erase_all (k ∷ ks) d = erase_all ks (erase k d)

-- The keys of the cached tracks that are not among `active_keys`.
abbrev pub stale_keys : {Uid : Type 0} → List TrackKey → Dict TrackKey Uid → List TrackKey
stale_keys active_keys d = keep (λ k. not (contains active_keys k)) (keys d)

unfoldable pub cleanup_lost_tracks :
    {F Uid : Type 0} → List TrackKey → MtmcAssociator F Uid → MtmcAssociator F Uid
cleanup_lost_tracks active_keys s = record s {
  track_to_person = erase_all (stale_keys active_keys s.track_to_person) s.track_to_person;
}

module _ {F Uid : Type 0} ⦃fl : Float F⦄ ⦃eq : Eq Uid⦄ (np : Numpy F) where
  -- One call with no other thread between its three critical sections.
  unfoldable pub associate :
      Uid → TrackKey → List F → MtmcAssociator F Uid → Option (MtmcAssociator F Uid × Uid × Bool)
  associate new_id key emb s = elim (lookup key s.track_to_person) [
    | some p ↦ some (s, p, false)
    | none ↦ do
      (g, p, is_new) ← match_or_create np new_id emb s.gallery
      some (record { gallery = g; track_to_person = insert key p s.track_to_person }, p, is_new)
  ]

-- What a client may ask of the associator.
pub data Call (F Uid : Type 0) : Type 0 where
  associating : Uid → TrackKey → List F → Call F Uid
  cleaning : List TrackKey → Call F Uid

module _ {F Uid : Type 0} ⦃fl : Float F⦄ ⦃eq : Eq Uid⦄ (np : Numpy F) where
  -- A sequence of calls, the answers left out.
  unfoldable pub run : List (Call F Uid) → MtmcAssociator F Uid → Option (MtmcAssociator F Uid)
  run [] s = some s
  run (associating new_id key emb ∷ calls) s = do
    (s', _, _) ← associate np new_id key emb s
    run calls s'
  run (cleaning active ∷ calls) s = run calls (cleanup_lost_tracks active s)
