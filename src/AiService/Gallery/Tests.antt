-- ===== src/AiService/Gallery/Tests.antt =====
-- Runs of the gallery on hundredths, and its theorems at concrete inputs.
use intelligent_multi_camera.Prelude.{
  ℕ, ◌≡◌, refl, ◌⊎◌, Bool, true, false, List, [], ◌∷◌, none, some, arith, nat_eq,
}
use intelligent_multi_camera.Prelude.Dict.{lookup, insert}
use intelligent_multi_camera.Prelude.Int.{ℤ, pos, ◌+ℤ◌, ◌-ℤ◌, ◌*ℤ◌}
use intelligent_multi_camera.Prelude.Float.{hundredths, ℤ-IsOrdered}
use intelligent_multi_camera.AiService.Embedding.{average_embeddings, cosine_similarity}
use intelligent_multi_camera.AiService.Embedding.Plain.{
  add_vectors, dot_vectors, sum_vectors, norm_1, mean_vectors, plain, plain-KeepsShape,
}
use intelligent_multi_camera.AiService.Gallery.{
  PersonGallery, init, similarity, settle, best_match, match_or_create, get_average_embedding, size,
  all_ids,
}
use intelligent_multi_camera.AiService.Gallery.Valid.{IsValid, Knows, match_or_create-Knows}
use intelligent_multi_camera.AiService.Gallery.Decision.{
  IsCreated, IsReidentified, match_or_create_decides,
}

program : Unit {0}
unfolding init match_or_create best_match settle similarity average_embeddings cosine_similarity
    dot_vectors mean_vectors sum_vectors add_vectors norm_1 ◌+ℤ◌ ◌-ℤ◌ ◌*ℤ◌ lookup insert nat_eq
    get_average_embedding size all_ids
program = tt

-- Persons 7 and 8, along the two axes.
abbrev pub east : List ℤ
east = pos 100 ∷ pos 0 ∷ []

abbrev pub north : List ℤ
north = pos 0 ∷ pos 100 ∷ []

abbrev pub two_persons : PersonGallery ℤ ℕ
two_persons = record { threshold = pos 75; gallery = (7, east ∷ []) ∷ (8, north ∷ []) ∷ [] }

-- Closest to person 8.
abbrev pub near_north : List ℤ
near_north = pos 20 ∷ pos 98 ∷ []

near_north_known :
    match_or_create plain 9 near_north two_persons
    ≡ some (
      record two_persons { gallery = (7, east ∷ []) ∷ (8, north ∷ near_north ∷ []) ∷ [] },
      8,
      false,
    )
unfolding program
near_north_known = refl

-- At 45 degrees, below the threshold for both.
between_new :
    match_or_create plain 9 (pos 70 ∷ pos 70 ∷ []) two_persons
    ≡ some (
      record two_persons {
        gallery = (7, east ∷ []) ∷ (8, north ∷ []) ∷ (9, (pos 70 ∷ pos 70 ∷ []) ∷ []) ∷ [];
      },
      9,
      true,
    )
unfolding program
between_new = refl

-- A vector of another dimension makes numpy raise.
wrong_dimension : match_or_create plain 9 (pos 70 ∷ []) two_persons ≡ none
unfolding program
wrong_dimension = refl

starts_empty :
    match_or_create {Uid = ℕ} plain 9 east init
    ≡ some (record { threshold = pos 75; gallery = (9, east ∷ []) ∷ [] }, 9, true)
unfolding program
starts_empty = refl

pub two_persons-IsValid : IsValid 2 two_persons
unfolding lookup nat_eq
two_persons-IsValid = record {
  distinct = (refl, (refl, tt));
  entries = (
    record { nonempty = omega arith; bounded = omega arith; dimension = omega arith },
    (record { nonempty = omega arith; bounded = omega arith; dimension = omega arith }, tt),
  );
}

match_or_create-Knows_example :
    (r : PersonGallery ℤ ℕ × ℕ × Bool) × (match_or_create plain 9 near_north two_persons ≡ some r)
    × Knows 2 two_persons r
match_or_create-Knows_example =
    match_or_create-Knows 2 plain plain-KeepsShape 9 near_north two_persons refl two_persons-IsValid

match_or_create_decides_example :
    IsCreated plain near_north 9 two_persons (
      record two_persons { gallery = (7, east ∷ []) ∷ (8, north ∷ near_north ∷ []) ∷ [] },
      8,
      false,
    )
    ⊎ IsReidentified plain near_north two_persons (
      record two_persons { gallery = (7, east ∷ []) ∷ (8, north ∷ near_north ∷ []) ∷ [] },
      8,
      false,
    )
unfolding program
match_or_create_decides_example =
    match_or_create_decides plain near_north ℤ-IsOrdered 9 two_persons (refl, (refl, tt))
      (λ x h. ground arith, (λ x h. ground arith, tt)) refl refl
