-- ===== src/Analytics/Tracking/Rejected.antt =====
-- The events that apps/ai-service/src/plugins/probe_callbacks.py sends, as the use case reads them.
use intelligent_multi_camera.Prelude.{
  ℕ, nat_eq, ◌==◌, ◌≡◌, refl, String, string_eq, Bool, false, ◌||◌, Option, none, arith,
}
use intelligent_multi_camera.Analytics.Tracking.{replace_z}
use Prim.Native.String.{String as Text, ◌++◌ as ◌<>◌}
use Prim.Native.String.append
use Prim.Native.Char.{code}

-- `datetime.now(timezone.utc).isoformat() + "Z"`, where the first part ends in the offset of UTC.
unfoldable pub probe_timestamp : String → String
probe_timestamp local = local <> "+00:00Z"

-- A text without the letter Z.
abbrev pub has_z : String → Bool
has_z Text.[] = false
has_z (Text.◌∷◌ c s) = code c == 90 || has_z s

pub replace_z-probe_timestamp :
    (local : String)
    → has_z local ≡ false
    → replace_z (probe_timestamp local) ≡ local <> "+00:00+00:00"
unfolding replace_z probe_timestamp nat_eq
replace_z-probe_timestamp Text.[] h = refl
replace_z-probe_timestamp (Text.◌∷◌ c s) h =
    let rest = replace_z-probe_timestamp s (ground arith) in
    let other : (code c == 90) ≡ false = ground arith in
    rw (append.cons c s "+00:00Z", append.cons c s "+00:00+00:00", other, rest) refl

-- What is assumed of `datetime.fromisoformat`: it raises on a text that ends in two offsets.
abbrev pub RefusesTwoOffsets : (String → Option ℕ) → Type 0
RefusesTwoOffsets parse_time = (s : String) → parse_time (s <> "+00:00+00:00") ≡ none
