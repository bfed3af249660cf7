-- ===== src/Shared/VectorIds.antt =====
-- The ids under which a person's embedding is stored in Qdrant: those of packages/shared/vector/qdrant.py and of
-- apps/ai-service/src/reid/gallery_manager.py. A UUID is its number, below 2 ^ 128.
mod Tests
use mathlib.Core.Logic.{dite}
use intelligent_multi_camera.Prelude.{
  Eq, ◌==◌, nat_eq, ap, ℕ, ◌+◌, ◌*◌, ◌/◌, ◌%◌, ◌^◌, ◌<◌, ◌≡◌, ◌≢◌, refl, Bool, true, false, List,
  [], ◌∷◌, Option, none, some, arith, ltb, if◌then◌else◌,
}

-- An id of a point: Qdrant takes a UUID or an unsigned number.
pub data PointId : Type 0 where
  uuid : ℕ → PointId
  number : ℕ → PointId

abbrev digits_of : PointId → ℕ
digits_of (uuid n) = n
digits_of (number n) = n

point_dec : Discrete PointId
point_dec (uuid m) (uuid n) =
    dite (nat_eq.dec m n) (λ p. yes (ap uuid p)) (λ differ. no (λ q. differ (ap digits_of q)))
point_dec (number m) (number n) =
    dite (nat_eq.dec m n) (λ p. yes (ap number p)) (λ differ. no (λ q. differ (ap digits_of q)))
point_dec (uuid m) (number n) = no (λ q. absurd (ground arith))
point_dec (number m) (uuid n) = no (λ q. absurd (ground arith))

instance unfoldable pub point_eq : Eq PointId
unfolding point_dec
point_eq = record { dec = point_dec }

pub same_uuid : (m n : ℕ) → (uuid m == uuid n) ≡ (m == n)
unfolding point_eq point_dec
same_uuid m n = elim (nat_eq.dec m n) [ yes same ↦ ground arith | no differ ↦ ground arith ]

pub number_no_uuid : (m n : ℕ) → (number m == uuid n) ≡ false
unfolding point_eq point_dec
number_no_uuid m n = refl

-- `QdrantVectorStore.upsert_embedding` and `delete_embeddings`: `str(person_id)`, which Qdrant reads as a UUID.
unfoldable pub shared_point_id : ℕ → PointId
shared_point_id person = uuid person

-- `PersonGalleryManager.upsert_embedding` and `delete_person`: `uuid.UUID(person_uuid).int % (2**63)`.
unfoldable pub gallery_point_id : ℕ → PointId
gallery_point_id person = number (person % 2 ^ 63)

-- The person of a match in `QdrantVectorStore.search_similar`: `uuid.UUID(point_id)` or `uuid.UUID(int=point_id)`.
unfoldable pub matched_person : PointId → ℕ
matched_person (uuid n) = n
matched_person (number n) = n

-- The version field of a UUID, which is 4 for those of `uuid.uuid4`.
abbrev pub version : ℕ → ℕ
version person = person / 2 ^ 76 % 16

-- The analytics service finds a person that it stored itself, but never one that the AI service stored: for a
-- random UUID the match names another person. Nor do the two services ever write the same point.
pub stored_by_gallery_lost :
    (person : ℕ)
    → version person ≡ 4
    → (matched_person (shared_point_id person) ≡ person)
      × (matched_person (gallery_point_id person) ≢ person)
      × ((other : ℕ) → gallery_point_id person ≢ shared_point_id other)
unfolding matched_person shared_point_id gallery_point_id
stored_by_gallery_lost person v4 =
    (refl, λ h. absurd (too_large person h v4), λ other h. absurd (ground arith))
  where
    too_large : (n : ℕ) → n % 2 ^ 63 ≡ n → version n ≡ 4 → ⊥
    too_large n h v = omega arith
