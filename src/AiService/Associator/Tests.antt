-- ===== src/AiService/Associator/Tests.antt =====
-- Runs of the associator on hundredths, and its theorems at concrete inputs.
use intelligent_multi_camera.Prelude.{
  ℕ, ◌≡◌, refl, true, false, List, [], ◌∷◌, some, arith, nat_eq, string_eq, pair_eq, ◌==◌,
  if◌then◌else◌,
}
use intelligent_multi_camera.Prelude.Dict.{lookup, insert, erase}
use intelligent_multi_camera.Prelude.Int.{ℤ, pos, ◌+ℤ◌, ◌-ℤ◌, ◌*ℤ◌}
use intelligent_multi_camera.Prelude.Float.{hundredths}
use intelligent_multi_camera.AiService.Embedding.{average_embeddings, cosine_similarity}
use intelligent_multi_camera.AiService.Embedding.Plain.{
  add_vectors, dot_vectors, sum_vectors, norm_1, mean_vectors, plain, plain-KeepsShape,
}
use intelligent_multi_camera.AiService.Gallery.{similarity, settle, best_match, match_or_create}
use intelligent_multi_camera.AiService.Gallery.Tests.{
  east, north, near_north, two_persons, two_persons-IsValid,
}
use intelligent_multi_camera.AiService.Associator.{
  MtmcAssociator, Call, associating, cleaning, run, erase_all, cleanup_lost_tracks, associate,
}
use intelligent_multi_camera.AiService.Associator.Sequential.{IsConsistent, run_keeps_track}
use intelligent_multi_camera.AiService.Associator.Threads.{
  idle, checking, missed, returned, World, Step, Reach, IsSafe, Reach-IsSafe,
}
use intelligent_multi_camera.AiService.Associator.Race.{race_two_persons}

program : Unit {0}
unfolding associate cleanup_lost_tracks erase_all run match_or_create best_match settle similarity
    average_embeddings cosine_similarity dot_vectors mean_vectors sum_vectors add_vectors norm_1
    ◌+ℤ◌ ◌-ℤ◌ ◌*ℤ◌ lookup insert erase nat_eq string_eq pair_eq
program = tt

abbrev tracked : MtmcAssociator ℤ ℕ
tracked = record { gallery = two_persons; track_to_person = (("0", 5), 7) ∷ [] }

abbrev calls : List (Call ℤ ℕ)
calls =
    associating 9 ("1", 3) near_north
    ∷ cleaning (("0", 5) ∷ [])
    ∷ associating 9 ("1", 4) near_north
    ∷ []

-- The cached track is answered with no look at the embedding.
cached : associate plain 9 ("0", 5) north tracked ≡ some (tracked, 7, false)
unfolding program
cached = refl

run-calls :
    run plain calls tracked
    ≡ some (record {
      gallery = record two_persons {
        gallery = (7, east ∷ []) ∷ (8, north ∷ near_north ∷ near_north ∷ []) ∷ [];
      };
      track_to_person = (("0", 5), 7) ∷ (("1", 4), 8) ∷ [];
    })
unfolding program
run-calls = refl

tracked-IsConsistent : IsConsistent 2 tracked
unfolding program
tracked-IsConsistent = record { valid = two_persons-IsValid; known = λ k p h. ground arith }

run_keeps_track_example :
    (s : MtmcAssociator ℤ ℕ) × (run plain calls tracked ≡ some s)
    × IsConsistent 2 s
    × (lookup ("0", 5) s.track_to_person ≡ some 7)
unfolding program
run_keeps_track_example =
    run_keeps_track 2 plain plain-KeepsShape ("0", 5) 7 calls tracked tracked-IsConsistent
      (refl, (refl, (refl, tt))) refl

abbrev quiet : World ℤ ℕ
quiet = record { shared = tracked; phase = λ t. idle }

Reach-IsSafe_example :
    IsSafe plain 2 (record quiet { phase = λ t. if t == 0 then checking ("1", 3) north else idle })
Reach-IsSafe_example =
    Reach-IsSafe plain 2 plain-KeepsShape {w = quiet}
      (record { consistent = tracked-IsConsistent; sound = λ t. tt })
      (Reach.next Reach.here (Step.call 0 ("1", 3) north refl))

abbrev racing : World ℤ ℕ
racing = record {
  shared = record { gallery = record { threshold = pos 75; gallery = [] }; track_to_person = [] };
  phase = λ t. if t == 0 then missed ("0", 5) east else missed ("0", 5) north;
}

race_two_persons_example :
    (w : World ℤ ℕ) × Reach plain 2 racing w
    × (w.phase 0 ≡ returned 8 true)
    × (w.phase 1 ≡ returned 9 true)
    × (lookup ("0", 5) w.shared.track_to_person ≡ some 9)
unfolding program
race_two_persons_example =
    race_two_persons plain 2 0 1 ("0", 5) east north 8 9 (pos 0) racing (omega arith) refl refl refl
      refl refl
