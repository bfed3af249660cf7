-- ===== src/Shared/Http.antt =====
-- What the services' HTTP code shares: the outcome of a handler and the headers of a request.
use intelligent_multi_camera.Prelude.{
  ℕ, ◌≡◌, refl, ◌⊎◌, inl, inr, String, List, [], ◌∷◌, Option, none, some, if◌then◌else◌,
}
use intelligent_multi_camera.Prelude.Text.{same_name}

-- A value, or an `HTTPException` by its status; 500 is any other exception that leaves the handler.
pub data Result {ℓ} (A : Type ℓ) : Type ℓ where
  ok : A → Result A
  failed : ℕ → Result A

pub Result-cases {ℓ} :
    {A : Type ℓ} (r : Result A) → ((a : A) × (r ≡ ok a)) ⊎ ((status : ℕ) × (r ≡ failed status))
Result-cases (ok a) = inl (a, refl)
Result-cases (failed status) = inr (status, refl)

-- Header lines in the order they are sent.
abbrev pub Headers : Type 0
Headers = List (String × String)

-- What is assumed of `request.headers.get(name)`: it answers the first line of that name, in any case.
pub record ReadsFirst (get : String → Headers → Option String) : Type 0 where
  pub no_line : (name : String) → get name [] ≡ none
  pub line :
      (name k v : String) (lines : Headers)
      → get name ((k, v) ∷ lines) ≡ (if same_name k name then some v else get name lines)

-- A reader of headers for which this holds.
unfoldable pub first_value : String → Headers → Option String
first_value name [] = none
first_value name ((k, v) ∷ lines) = if same_name k name then some v else first_value name lines

pub first_value-ReadsFirst : ReadsFirst first_value
unfolding first_value
first_value-ReadsFirst = record { no_line = λ name. refl; line = λ name k v lines. refl }
