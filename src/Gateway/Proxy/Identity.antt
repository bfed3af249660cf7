-- ===== src/Gateway/Proxy/Identity.antt =====
-- The identity headers of a forwarded request, as the service behind the gateway reads them.
use intelligent_multi_camera.Prelude.{
  ◌≡◌, refl, ap, sym, ◌∙◌, String, string_eq, true, false, [], ◌∷◌, Option, some, arith, ◌==◌, All,
}
use mathlib.Core.Logic.{if_pos, if_neg}
use intelligent_multi_camera.Prelude.Dict.{lookup, insert, lookup-insert}
use intelligent_multi_camera.Prelude.Text.{same_name}
use intelligent_multi_camera.Shared.Http.{ok, Headers, ReadsFirst}
use intelligent_multi_camera.Gateway.Token.{Claims, text, claim, str_of_claim}
use intelligent_multi_camera.Gateway.Proxy.{with_identity, or_else}

-- Every line that reads as the name `high` is spelled `low`.
abbrev pub Spelled : String → String → Headers → Type 0
Spelled low high lines = All (λ e. same_name e.0 high ≡ true → e.0 ≡ low) lines

insert-Spelled :
    (low high k v : String) (lines : Headers)
    → same_name k high ≡ false
    → Spelled low high lines
    → Spelled low high (insert k v lines)
unfolding insert
insert-Spelled low high k v [] differs s = (λ h. absurd (ground arith), tt)
insert-Spelled low high k v ((j, w) ∷ lines) differs (here, rest) = elim (string_eq.dec k j) [
  | yes same ↦ rw (if_pos _ same) (λ h. absurd (ground arith), rest)
  | no other ↦ rw (if_neg _ other) (here, insert-Spelled low high k v lines differs rest)
]

-- The client's lines are spelled in lower case, where they read as one of the gateway's names.
abbrev pub LowerCase : Headers → Type 0
LowerCase lines =
    Spelled "x-user-id" "X-User-Id" lines
    × Spelled "x-user-role" "X-User-Role" lines
    × Spelled "x-internal-service-key" "X-Internal-Service-Key" lines

module _ (get : String → Headers → Option String) (reads : ReadsFirst get) where
  -- The gateway's line stands behind the client's.
  get-insert :
      (low high v : String) (lines : Headers)
      → same_name low high ≡ true
      → same_name high high ≡ true
      → (low == high) ≡ false
      → Spelled low high lines
      → get high (insert high v lines) ≡ some (or_else v (lookup low lines))
  unfolding insert lookup
  get-insert low high v [] alike self differ s = ground (arith, reads.line high high v [])
  get-insert low high v ((k, w) ∷ lines) alike self differ (here, rest) = ground (
    arith,
    reads.line high k w (insert high v lines),
    here,
    get-insert low high v lines alike self differ rest,
  )

  get-insert_other :
      (name k v : String) (lines : Headers)
      → same_name k name ≡ false
      → get name (insert k v lines) ≡ get name lines
  unfolding insert
  get-insert_other name k v [] differs = ground (arith, reads.line name k v [])
  get-insert_other name k v ((j, w) ∷ lines) differs = ground (
    arith,
    reads.line name k v lines,
    reads.line name j w lines,
    reads.line name j w (insert k v lines),
    get-insert_other name k v lines differs,
  )

  -- Behind the gateway, where a header is read by its first line, the user, the role and the service key of a
  -- verified request are those of the token and the gateway only if the client sent no such header: a client's
  -- own header (which comes in lower case) is read in place of the gateway's.
  pub with_identity_received :
      (service_key user : String) (payload : Claims) (lines out : Headers)
      → LowerCase lines
      → claim "sub" payload ≡ text user
      → with_identity service_key payload lines ≡ ok out
      → (get "X-User-Id" out ≡ some (or_else user (lookup "x-user-id" lines)))
        × (get "X-User-Role" out
            ≡ some (or_else (str_of_claim (claim "role_id" payload)) (lookup "x-user-role" lines)))
        × (get "X-Internal-Service-Key" out
            ≡ some (or_else service_key (lookup "x-internal-service-key" lines)))
  unfolding with_identity same_name string_eq
  with_identity_received service_key user payload lines out (ids, roles, service_keys) subject h =
      let role = str_of_claim (claim "role_id" payload) in
      let l₁ = insert "X-User-Id" user lines in
      let l₂ = insert "X-User-Role" role l₁ in
      let sent : insert "X-Internal-Service-Key" service_key l₂ ≡ out = ground arith in
      let roles₁ = insert-Spelled "x-user-role" "X-User-Role" "X-User-Id" user lines refl roles in
      let keys₁ =
        insert-Spelled "x-internal-service-key" "X-Internal-Service-Key" "X-User-Role" role l₁ refl
          (insert-Spelled "x-internal-service-key" "X-Internal-Service-Key" "X-User-Id" user lines
            refl service_keys) in
      let id_read = get-insert "x-user-id" "X-User-Id" user lines refl refl refl ids in
      let role_read = get-insert "x-user-role" "X-User-Role" role l₁ refl refl refl roles₁ in
      let key_read =
        get-insert "x-internal-service-key" "X-Internal-Service-Key" service_key l₂ refl refl refl
          keys₁ in
      let kept : lookup "x-user-role" l₁ ≡ lookup "x-user-role" lines =
        lookup-insert "x-user-role" "X-User-Id" user lines in
      let kept_key : lookup "x-internal-service-key" l₂ ≡ lookup "x-internal-service-key" lines =
        lookup-insert "x-internal-service-key" "X-User-Role" role l₁
        ∙ lookup-insert "x-internal-service-key" "X-User-Id" user lines in
      let id_passed =
        get-insert_other "X-User-Id" "X-Internal-Service-Key" service_key l₂ refl
        ∙ get-insert_other "X-User-Id" "X-User-Role" role l₁ refl in
      let role_passed =
        get-insert_other "X-User-Role" "X-Internal-Service-Key" service_key l₂ refl in
      rw (sym sent) (
        id_passed ∙ id_read,
        role_passed ∙ role_read ∙ ap (λ o. some (or_else role o)) kept,
        key_read ∙ ap (λ o. some (or_else service_key o)) kept_key,
      )
