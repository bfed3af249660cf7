-- ===== src/Gateway/Token/Admission.antt =====
-- Which tokens the gateway accepts.
use intelligent_multi_camera.Prelude.{
  ◌≡◌, refl, ◌≤◌, ◌↔◌, String, string_eq, true, List, [], ◌∷◌, some, arith, Option-cases,
  Bool-cases, inl, inr, ap, subst,
}
use intelligent_multi_camera.Prelude.Text.{is_empty, same_name, split}
use intelligent_multi_camera.Shared.Http.{ok}
use intelligent_multi_camera.Shared.Security.{Role}
use intelligent_multi_camera.Gateway.Token.{
  Claims, Decoded, claims, claim, truth, is_text, role_of_claim, check_payload, check_decoded,
  check_parts, verify_token, max_jwt_token_length, max_authorization_header_length,
}
use Prim.Native.String.{count}

-- The claims of an access token of a user with a role.
abbrev pub IsAccess : Claims → Type 0
IsAccess payload =
    (is_text (claim "type" payload) "access" ≡ true)
    × (truth (claim "sub" payload) ≡ true)
    × ((r : Role) × (role_of_claim (claim "role_id" payload) ≡ some r))

check_payload_sound :
    (c payload : Claims) → check_payload c ≡ ok payload → (c ≡ payload) × IsAccess c
unfolding check_payload
check_payload_sound c payload h = elim (Option-cases (role_of_claim (claim "role_id" c))) [
  | inl missing ↦ ground arith
  | inr (r, found) ↦ (ground arith, (ground arith, ground arith, (r, found)))
]

check_payload_complete : (payload : Claims) → IsAccess payload → check_payload payload ≡ ok payload
unfolding check_payload
check_payload_complete payload (access, subject, (r, found)) = ground arith

pub check_decoded_lem :
    (d : Decoded) (payload : Claims)
    → (check_decoded d ≡ ok payload) ↔ ((d ≡ claims payload) × IsAccess payload)
unfolding check_decoded
check_decoded_lem Decoded.invalid payload = (λ h. ground arith, λ (h, _). ground arith)
check_decoded_lem Decoded.expired payload = (λ h. ground arith, λ (h, _). ground arith)
check_decoded_lem (Decoded.claims c) payload = (
  (λ h.
      let (same, access) = check_payload_sound c payload h in
      (ap claims same, subst IsAccess same access)),
  λ (h, access).
      let same : c ≡ payload = ground arith in rw same (check_payload_complete payload access),
)

blank_split : (s : String) → is_empty s ≡ true → split s ≡ []
unfolding split
blank_split String.[] h = refl
blank_split (String.◌∷◌ c s) h = absurd (ground arith)

module _ (decode : String → Decoded) where
  -- A scheme and a token that carries `payload`.
  abbrev pub Bears : List String → Claims → Type 0
  Bears parts payload =
      (scheme : String) × (token : String) × (parts ≡ scheme ∷ token ∷ [])
      × (same_name scheme "bearer" ≡ true)
      × (count token ≤ max_jwt_token_length)
      × (decode token ≡ claims payload)
      × IsAccess payload

  check_parts_sound :
      (parts : List String) (payload : Claims)
      → check_parts decode parts ≡ ok payload
      → Bears parts payload
  unfolding check_parts
  check_parts_sound [] payload h = absurd (ground arith)
  check_parts_sound (_ ∷ []) payload h = absurd (ground arith)
  check_parts_sound (_ ∷ _ ∷ _ ∷ _) payload h = absurd (ground arith)
  check_parts_sound (scheme ∷ token ∷ []) payload h =
      let decoded : check_decoded (decode token) ≡ ok payload = ground arith in
      let (carries, access) = (check_decoded_lem (decode token) payload).0 decoded in
      (scheme, token, refl, ground arith, ground arith, carries, access)

  check_parts_complete :
      (parts : List String) (payload : Claims)
      → Bears parts payload
      → check_parts decode parts ≡ ok payload
  unfolding check_parts
  check_parts_complete parts payload (scheme, token, two, bearer, short, carries, access) =
      let decoded = (check_decoded_lem (decode token) payload).1 (carries, access) in
      rw two (ground arith)

  -- The gateway accepts an `Authorization` header with the claims `payload` exactly when the header has at
  -- most 8192 characters and is a scheme that reads "bearer" in any case and a token of at most 4096
  -- characters, and the token decodes to `payload`, an access token with a subject and a role.
  pub verify_token_accepts :
      (header : String) (payload : Claims)
      → (verify_token decode (some header) ≡ ok payload)
        ↔ ((count header ≤ max_authorization_header_length) × Bears (split header) payload)
  unfolding verify_token
  verify_token_accepts header payload = (
    λ h. (ground arith, check_parts_sound (split header) payload (ground arith)),
    λ (short, bears).
        let accepted = check_parts_complete (split header) payload bears in
        elim (Bool-cases (is_empty header)) [
          | inl blank ↦ absurd (ground (arith, blank_split header blank, bears.2))
          | inr filled ↦ ground arith
        ],
  )
