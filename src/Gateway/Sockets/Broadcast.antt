-- ===== src/Gateway/Sockets/Broadcast.antt =====
-- Which clients stay connected.
use intelligent_multi_camera.Prelude.Dict.{contains-keep}
use intelligent_multi_camera.Prelude.{
  if_both, ◌&&◌, ℕ, nat_eq, ◌≤◌, ◌≡◌, refl, sym, ◌∙◌, String, string_eq, Bool, true, false, not,
  List, [], ◌∷◌, ◌++◌, Option, ltb, arith, ◌==◌, contains, keep, length, All, if◌then◌else◌,
  length-append,
}
use intelligent_multi_camera.Shared.Http.{Result, ok, failed}
use intelligent_multi_camera.Gateway.Token.{Claims, Decoded, check_websocket_token}
use intelligent_multi_camera.Gateway.Sockets.{
  max_connections, can_accept, connect, disconnect, disconnect_all, broadcast, open_socket,
}

-- No connection stands twice.
abbrev pub Distinct : List ℕ → Type 0
Distinct [] = Unit
Distinct (c ∷ active) = (contains active c ≡ false) × Distinct active

keep_all :
    (c : ℕ) (active : List ℕ) → contains active c ≡ false → keep (λ d. not (c == d)) active ≡ active
keep_all c [] h = refl
keep_all c (d ∷ active) h = ground (arith, keep_all c active)

disconnect_keeps :
    (c : ℕ) (active : List ℕ)
    → Distinct active
    → disconnect c active ≡ keep (λ d. not (c == d)) active
unfolding disconnect
disconnect_keeps c [] u = refl
disconnect_keeps c (d ∷ active) (fresh, u) =
    ground (arith, disconnect_keeps c active u, keep_all d active fresh)

keep-Distinct : (p : ℕ → Bool) (active : List ℕ) → Distinct active → Distinct (keep p active)
keep-Distinct p [] u = tt
keep-Distinct p (c ∷ active) (fresh, u) =
    if_both Distinct (p c) (c ∷ keep p active) (keep p active)
      (ground (arith, contains-keep p c active), keep-Distinct p active u)
      (keep-Distinct p active u)

keep_both :
    (p q : ℕ → Bool) (active : List ℕ) → keep p (keep q active) ≡ keep (λ c. q c && p c) active
keep_both p q [] = refl
keep_both p q (c ∷ active) = ground (arith, keep_both p q active)

keep_same :
    (p q : ℕ → Bool) (active : List ℕ) → All (λ c. p c ≡ q c) active → keep p active ≡ keep q active
keep_same p q [] h = refl
keep_same p q (c ∷ active) (here, rest) = ground (arith, here, keep_same p q active rest)

-- What holds of every member of a list.
All-members :
    (P : ℕ → Type 0) (active : List ℕ) → ((c : ℕ) → contains active c ≡ true → P c) → All P active
All-members P [] h = tt
All-members P (c ∷ active) h =
    (h c (ground arith), All-members P active (λ d m. h d (ground arith)))

disconnect_all_keeps :
    (stale active : List ℕ)
    → Distinct active
    → disconnect_all stale active ≡ keep (λ c. not (contains stale c)) active
unfolding disconnect_all
disconnect_all_keeps [] active u = sym (keep_true active)
  where
    keep_true : (xs : List ℕ) → keep (λ c. true) xs ≡ xs
    keep_true [] = refl
    keep_true (x ∷ xs) = ground (arith, keep_true xs)
disconnect_all_keeps (s ∷ stale) active u =
    let first = disconnect_keeps s active u in
    let left = keep-Distinct (λ d. not (s == d)) active u in
    rw first (
      disconnect_all_keeps stale (keep (λ d. not (s == d)) active) left
      ∙ keep_both (λ c. not (contains stale c)) (λ d. not (s == d)) active
      ∙ keep_same (λ c. not (s == c) && not (contains stale c)) (λ c. not (contains (s ∷ stale) c))
          active
          (All-members
            (λ c. (not (s == c) && not (contains stale c)) ≡ not (contains (s ∷ stale) c)) active
            (λ c m. ground arith)))

-- A broadcast drops exactly the clients that it could not reach, and keeps the order of the others, if no
-- connection is listed twice.
pub broadcast-keep :
    (takes : ℕ → Bool) (active : List ℕ)
    → Distinct active
    → broadcast takes active ≡ keep takes active
unfolding broadcast
broadcast-keep takes active u =
    disconnect_all_keeps (keep (λ c. not (takes c)) active) active u
    ∙ keep_same (λ c. not (contains (keep (λ d. not (takes d)) active) c)) takes active
        (All-members (λ c. not (contains (keep (λ d. not (takes d)) active) c) ≡ takes c) active
          (λ c member. ground (arith, contains-keep (λ d. not (takes d)) c active)))

-- A socket is opened only with a token that the gateway accepts, and never beyond 500 connections.
pub open_socket_accepts :
    (decode : String → Decoded) (token : Option String) (socket : ℕ) (active after : List ℕ)
    → open_socket decode token socket active ≡ ok after
    → ((c : Claims) × (check_websocket_token decode token ≡ ok c))
      × (length after ≤ max_connections)
unfolding open_socket can_accept connect
open_socket_accepts decode token socket active after h =
    opened (check_websocket_token decode token) refl h
  where
    opened :
        (r : Result Claims)
        → check_websocket_token decode token ≡ r
        → (elim r as (λ _. Result (List ℕ)) [
          | failed code ↦ failed code
          | ok _ ↦
              if ltb (length active) max_connections
              then ok (active ++ (socket ∷ []))
              else failed 4002
        ])
          ≡ ok after
        → ((c : Claims) × (check_websocket_token decode token ≡ ok c))
          × (length after ≤ max_connections)
    opened (failed code) e g = absurd (ground arith)
    opened (ok c) e g = ((c, e), ground (arith, length-append active (socket ∷ [])))
