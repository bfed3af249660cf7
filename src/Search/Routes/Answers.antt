-- ===== src/Search/Routes/Answers.antt =====
-- Which searches are answered, and with which persons.
use intelligent_multi_camera.Prelude.{ℕ, ◌≡◌, String, Bool, true, false, List, Option, length, All}
use intelligent_multi_camera.Prelude.Float.{Float, ◌<?◌}
use intelligent_multi_camera.Shared.VectorIds.{PointId, matched_person}
use intelligent_multi_camera.Shared.Qdrant.{Client}
use intelligent_multi_camera.Search.Routes.{SearchResult, threshold_or_default}

module _ {F Q : Type 0} ⦃fl : Float F⦄ (api : Client Q F) (text_of : ℕ → String)
    (holds : Q → PointId → Bool) where
  -- A result that names the person of a point that is held.
  abbrev pub Names : Q → SearchResult F → Type 0
  Names q r = (id : PointId) × (r.person_id ≡ text_of (matched_person id)) × (holds q id ≡ true)

  -- What holds of an answered search.
  abbrev pub IsAnswer : Q → List F → Option F → List (SearchResult F) → Type 0
  IsAnswer q embedding threshold results =
      (length embedding ≡ 512)
      × ((threshold_or_default threshold <? fl.ratio 50 100) ≡ false)
      × All (Names q) results
