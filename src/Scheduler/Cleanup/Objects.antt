-- ===== src/Scheduler/Cleanup/Objects.antt =====
-- A crop's path, as the AI service writes it and the job reads it.
use intelligent_multi_camera.Prelude.{
  ◌≡◌, refl, String, string_eq, nat_eq, Bool, false, ◌||◌, Option, none, some, ap, arith, ◌==◌,
}
use intelligent_multi_camera.Scheduler.Cleanup.{split_once, object_of}
use Prim.Native.String.{String as Text, ◌++◌ as ◌<>◌}
use Prim.Native.String.append
use Prim.Native.Char.{code}

abbrev pub has_slash : String → Bool
has_slash Text.[] = false
has_slash (Text.◌∷◌ c s) = code c == 47 || has_slash s

split_once-append :
    (bucket name : String)
    → has_slash bucket ≡ false
    → split_once (bucket <> ("/" <> name)) ≡ (bucket, some name)
unfolding split_once nat_eq
split_once-append Text.[] name h =
    rw (append.nil ("/" <> name), append.cons "/" "" name, append.nil name) refl
split_once-append (Text.◌∷◌ c s) name h =
    let rest = split_once-append s name (ground arith) in
    let other : (code c == 47) ≡ false = ground arith in
    rw (append.cons c s ("/" <> name), other, rest) refl

-- The job deletes the objects that the AI service saved: the path `bucket/name` that `save_crop_async` returns is
-- read back as that bucket and name, if the bucket's name has no slash.
pub object_of-saved :
    (default_bucket bucket name : String)
    → has_slash bucket ≡ false
    → object_of default_bucket (bucket <> ("/" <> name)) ≡ (bucket, name)
unfolding object_of
object_of-saved default_bucket bucket name h =
    ap
      (λ (r : String × Option String). elim r.1 as (λ _. String × String) [
        | none ↦ (default_bucket, r.0)
        | some n ↦ (r.0, n)
      ])
      (split_once-append bucket name h)
