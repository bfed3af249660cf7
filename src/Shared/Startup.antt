-- ===== src/Shared/Startup.antt =====
-- packages/shared/db_startup.py: the wait for the database. `connects` says which attempts, counted from 1, reach
-- it; the sleeps between them are left out.
mod Tests
use intelligent_multi_camera.Prelude.{
  ℕ, zero, suc, ◌+◌, ◌≤◌, ◌<◌, ◌≡◌, refl, ◌↔◌, inl, inr, Bool, true, false, not, ◌&&◌, Option, none,
  some, arith, leb, Bool-cases, if◌then◌else◌,
}

-- The attempt that succeeded, or none where `RuntimeError` is raised, with the engines created and disposed of.
pub record Waited : Type 0 where
  pub ready : Option ℕ
  pub engines_created : ℕ
  pub engines_disposed : ℕ

module _ (connects : ℕ → Bool) where
  -- One round of the loop: an engine is made, tried, and disposed of in either case.
  abbrev round : Option ℕ → Waited → Waited
  round ready rest = record {
    ready = ready;
    engines_created = suc rest.engines_created;
    engines_disposed = suc rest.engines_disposed;
  }

  abbrev nothing : Waited
  nothing = record { ready = none; engines_created = 0; engines_disposed = 0 }

  -- The attempts from one on, as many as remain.
  unfoldable pub attempts : ℕ → ℕ → Waited
  attempts zero attempt = nothing
  attempts (suc remaining) attempt =
      let rest = attempts remaining (suc attempt) in
      if connects attempt then round (some attempt) nothing else round rest.ready rest

  unfoldable pub wait_for_db : ℕ → Waited
  wait_for_db max_retries = attempts max_retries 1

  -- Whether as many attempts from one on all fail.
  abbrev pub all_fail : ℕ → ℕ → Bool
  all_fail zero attempt = true
  all_fail (suc n) attempt = not (connects attempt) && all_fail n (suc attempt)

  attempts_late :
      (remaining attempt k : ℕ) → (attempts remaining attempt).ready ≡ some k → attempt ≤ k
  unfolding attempts
  attempts_late zero attempt k h = absurd (ground arith)
  attempts_late (suc remaining) attempt k h = elim (Bool-cases (connects attempt)) [
    | inl up ↦ ground arith
    | inr down ↦ let later = attempts_late remaining (suc attempt) k (ground arith) in omega arith
  ]

  attempts_first :
      (remaining attempt n k : ℕ)
      → k ≡ attempt + n
      → ((attempts remaining attempt).ready ≡ some k)
        ↔ ((n < remaining) × (connects k ≡ true) × (all_fail n attempt ≡ true))
  unfolding attempts
  attempts_first zero attempt n k e =
      (λ h. absurd (ground arith), λ (few, up, before). absurd (omega arith))
  attempts_first (suc remaining) attempt zero k e =
      let same : k ≡ attempt = omega arith in
      let late = attempts_late remaining (suc attempt) k in
      elim (Bool-cases (connects attempt)) [
        | inl up ↦ ground arith
        | inr down ↦ ground (arith, late)
      ]
  attempts_first (suc remaining) attempt (suc n) k e =
      let rest = attempts_first remaining (suc attempt) n k (omega arith) in
      elim (Bool-cases (connects attempt)) [
        | inl up ↦ ground arith
        | inr down ↦ ground (arith, rest)
      ]

  engines_balanced :
      (remaining attempt : ℕ)
      → (attempts remaining attempt).engines_created ≡ (attempts remaining attempt).engines_disposed
  unfolding attempts
  engines_balanced zero attempt = refl
  engines_balanced (suc remaining) attempt =
      ground (arith, engines_balanced remaining (suc attempt))

  -- The service goes on after an attempt exactly when that one is the first to reach the database and is among the
  -- attempts allowed; otherwise it raises, and every engine that was made is disposed of in both cases.
  pub wait_for_db_first :
      (max_retries n : ℕ)
      → (((wait_for_db max_retries).ready ≡ some (suc n))
          ↔ ((n < max_retries) × (connects (suc n) ≡ true) × (all_fail n 1 ≡ true)))
        × ((wait_for_db max_retries).engines_created ≡ (wait_for_db max_retries).engines_disposed)
  unfolding wait_for_db
  wait_for_db_first max_retries n =
      (attempts_first max_retries 1 n (suc n) (omega arith), engines_balanced max_retries 1)
