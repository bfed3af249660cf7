-- ===== src/AiService/Gallery.antt =====
-- apps/ai-service/src/reid/mtmc_association.py, class PersonGallery: the in-memory gallery of known
-- persons. A person id is a value of any type with equality; `uuid.uuid4()` is the argument `new_id`.
-- A call that raises (`none`) releases the lock and leaves the gallery as it was.
pub mod Valid
pub mod Best
pub mod Decision
pub mod Tests
use intelligent_multi_camera.Prelude.{
  ◌>>=◌, ℕ, Bool, true, false, List, [], ◌∷◌, ◌++◌, Option, none, some, ltb, Eq, if◌then◌else◌,
  length, drop,
}
use intelligent_multi_camera.Prelude.Dict.{Dict, keys, lookup, insert}
use intelligent_multi_camera.Prelude.Float.{Float, float, ◌<?◌, ◌≤?◌}
use intelligent_multi_camera.AiService.Embedding.{Numpy, cosine_similarity, average_embeddings}

abbrev pub max_embeddings_per_person : ℕ
max_embeddings_per_person = 10

pub record PersonGallery (F Uid : Type 0) : Type 0 where
  pub threshold : F
  pub gallery : Dict Uid (List (List F))

-- `append`, then `pop(0)` when the list has grown past the window.
abbrev pub push_window {ℓ} : {A : Type ℓ} → A → List A → List A
push_window e es =
    let all = es ++ (e ∷ []) in
    if ltb max_embeddings_per_person (length all) then drop 1 all else all

module _ {F : Type 0} ⦃fl : Float F⦄ (np : Numpy F) where
  -- `cosine_similarity(embedding, average_embeddings(embeddings))`
  unfoldable pub similarity : List F → List (List F) → Option F
  similarity emb es = do avg_emb ← average_embeddings np es; cosine_similarity np emb avg_emb

module _ {F Uid : Type 0} ⦃fl : Float F⦄ ⦃eq : Eq Uid⦄ where
  -- The default of `match_threshold` is MATCH_THRESHOLD, 0.75.
  unfoldable pub init : PersonGallery F Uid
  init = record { threshold = fl.ratio 75 100; gallery = [] }

  -- `if sim > best_sim: best_sim = sim; best_id = person_id`
  abbrev pub better : Uid → F → Option Uid × F → Option Uid × F
  better p sim (best_id, best_sim) = if best_sim <? sim then (some p, sim) else (best_id, best_sim)

  abbrev pub none_yet : Option Uid × F
  none_yet = (none, fl.neg (float 1))

  -- `self._gallery[new_id] = [embedding]`
  abbrev pub create : Uid → List F → PersonGallery F Uid → PersonGallery F Uid × Uid × Bool
  create new_id emb g = (record g { gallery = insert new_id (emb ∷ []) g.gallery }, new_id, true)

  abbrev pub reidentify :
      Uid → List F → PersonGallery F Uid → Option (PersonGallery F Uid × Uid × Bool)
  reidentify p emb g = do
    es ← lookup p g.gallery
    some (record g { gallery = insert p (push_window emb es) g.gallery }, p, false)

  -- The `if best_id and best_sim >= self.threshold` of `match_or_create`.
  unfoldable pub settle :
      Uid
      → List F
      → PersonGallery F Uid
      → Option Uid × F
      → Option (PersonGallery F Uid × Uid × Bool)
  settle new_id emb g (none, best_sim) = some (create new_id emb g)
  settle new_id emb g (some p, best_sim) =
      if g.threshold ≤? best_sim then reidentify p emb g else some (create new_id emb g)

  module _ (np : Numpy F) where
    -- The loop over `self._gallery.items()`.
    unfoldable pub best_match :
        List F → Dict Uid (List (List F)) → Option Uid × F → Option (Option Uid × F)
    best_match emb [] best = some best
    best_match emb ((p, es) ∷ rest) best = do
      sim ← similarity np emb es
      best_match emb rest (better p sim best)

    unfoldable pub match_or_create :
        Uid → List F → PersonGallery F Uid → Option (PersonGallery F Uid × Uid × Bool)
    match_or_create new_id emb g = do
      best ← best_match emb g.gallery none_yet
      settle new_id emb g best

    -- An unknown person and an empty list both give None.
    unfoldable pub get_average_embedding : Uid → PersonGallery F Uid → Option (Option (List F))
    get_average_embedding p g = elim (lookup p g.gallery) [
      | none ↦ some none
      | some [] ↦ some none
      | some (e ∷ es) ↦ do avg ← average_embeddings np (e ∷ es); some (some avg)
    ]

unfoldable pub size : {F Uid : Type 0} → PersonGallery F Uid → ℕ
size g = length g.gallery

unfoldable pub all_ids : {F Uid : Type 0} → PersonGallery F Uid → List Uid
all_ids g = keys g.gallery
