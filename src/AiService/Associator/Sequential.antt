-- ===== src/AiService/Associator/Sequential.antt =====
-- The calls of one thread: every cached track names a known person, and keeps its person while active.
use intelligent_multi_camera.Prelude.{
  ◌>>=◌, ℕ, ◌≡◌, refl, inl, inr, Bool, true, false, not, List, [], ◌∷◌, none, some, arith, Eq,
  contains, string_eq, nat_eq, pair_eq, if◌then◌else◌, length, All, Option-cases,
}
use intelligent_multi_camera.Prelude.Dict.{
  Dict, keys, lookup, insert, erase, has, lookup-insert, lookup-erase, contains-keep, contains-keys,
}
use intelligent_multi_camera.Prelude.Float.{Float}
use intelligent_multi_camera.AiService.Embedding.{Numpy, KeepsShape}
use intelligent_multi_camera.AiService.Gallery.Valid.{IsValid, match_or_create-Knows}
use intelligent_multi_camera.AiService.Associator.{
  TrackKey, MtmcAssociator, Call, associating, cleaning, run, erase_all, stale_keys,
  cleanup_lost_tracks, associate,
}

lookup-erase_all :
    {Uid : Type 0} (j : TrackKey) (ks : List TrackKey) (d : Dict TrackKey Uid)
    → lookup j (erase_all ks d) ≡ (if contains ks j then none else lookup j d)
unfolding erase_all
lookup-erase_all j [] d = refl
lookup-erase_all j (k ∷ ks) d =
    ground (arith, lookup-erase_all j ks (erase k d), lookup-erase j k d)

-- A cleanup keeps the tracks of the active keys, with their persons, and no other.
pub lookup-cleanup_lost_tracks :
    {F Uid : Type 0} (j : TrackKey) (active : List TrackKey) (s : MtmcAssociator F Uid)
    → lookup j (cleanup_lost_tracks active s).track_to_person
      ≡ (if contains active j then lookup j s.track_to_person else none)
unfolding cleanup_lost_tracks
lookup-cleanup_lost_tracks j active s = ground (
  arith,
  lookup-erase_all j (stale_keys active s.track_to_person) s.track_to_person,
  contains-keep (λ k. not (contains active k)) j (keys s.track_to_person),
  contains-keys j s.track_to_person,
)

module _ {F Uid : Type 0} ⦃fl : Float F⦄ ⦃eq : Eq Uid⦄ (n : ℕ) where
  -- The gallery is valid, and holds the person of every cached track.
  pub record IsConsistent (s : MtmcAssociator F Uid) : Type 0 where
    pub valid : IsValid n s.gallery
    pub known :
        (k : TrackKey) (p : Uid)
        → lookup k s.track_to_person ≡ some p
        → has p s.gallery.gallery ≡ true

  -- A cleanup keeps the state consistent.
  pub cleanup-IsConsistent :
      (active : List TrackKey) (s : MtmcAssociator F Uid)
      → IsConsistent s
      → IsConsistent (cleanup_lost_tracks active s)
  unfolding cleanup_lost_tracks
  cleanup-IsConsistent active s c = record {
    valid = c.valid;
    known = λ k p h. c.known k p (ground (arith, lookup-cleanup_lost_tracks k active s));
  }

  module _ (np : Numpy F) (shape : KeepsShape np) where
    -- From a consistent state, with an embedding of the right dimension, `associate` does not raise:
    -- it leaves a consistent state in which the track is cached with the returned person, and every
    -- track that was cached keeps its person.
    pub associate-IsConsistent :
        (new_id : Uid) (key : TrackKey) (emb : List F) (s : MtmcAssociator F Uid)
        → length emb ≡ n
        → IsConsistent s
        → (r : MtmcAssociator F Uid × Uid × Bool) × (associate np new_id key emb s ≡ some r)
          × IsConsistent r.0
          × (lookup key r.0.track_to_person ≡ some r.1)
          × ((j : TrackKey) (p : Uid)
              → lookup j s.track_to_person ≡ some p
              → lookup j r.0.track_to_person ≡ some p)
    unfolding associate
    associate-IsConsistent new_id key emb s h c =
        elim (Option-cases (lookup key s.track_to_person)) [
          | inr (p, hit) ↦ ((s, p, false), rw (hit, associate), c, hit, λ j q e. e)
          | inl miss ↦
              let ((g, p, b), e, k) =
                match_or_create-Knows n np shape new_id emb s.gallery h c.valid in
              let s' : MtmcAssociator F Uid = record {
                gallery = g;
                track_to_person = insert key p s.track_to_person;
              } in
              (
                (s', p, b),
                rw (miss, associate) (rw (e, ◌>>=◌)),
                record {
                  valid = k.valid;
                  known = λ j q l. ground (
                    arith,
                    lookup-insert j key p s.track_to_person,
                    k.present,
                    c.known j q,
                    k.kept q,
                  );
                },
                ground (arith, lookup-insert key key p s.track_to_person),
                λ j q l. ground (arith, lookup-insert j key p s.track_to_person),
              )
        ]

    -- A call that leaves the track `key` alone: embeddings have the right dimension, and a cleanup
    -- lists the track as active.
    abbrev pub Spares : TrackKey → Call F Uid → Type 0
    Spares key (associating _ _ emb) = length emb ≡ n
    Spares key (cleaning active) = contains active key ≡ true

    -- From a consistent state with embeddings of dimension n, a cached track keeps its person through any
    -- sequence of calls in which every embedding has dimension n and each cleanup lists the track as
    -- active; no call of such a sequence raises, and the state stays consistent.
    pub run_keeps_track :
        (key : TrackKey) (p : Uid) (calls : List (Call F Uid)) (s : MtmcAssociator F Uid)
        → IsConsistent s
        → All (Spares key) calls
        → lookup key s.track_to_person ≡ some p
        → (s' : MtmcAssociator F Uid) × (run np calls s ≡ some s')
          × IsConsistent s'
          × (lookup key s'.track_to_person ≡ some p)
    unfolding run
    run_keeps_track key p [] s c h e = (s, refl, c, e)
    run_keeps_track key p (associating new_id k emb ∷ calls) s c h e =
        let (r, a, c', _, kept) = associate-IsConsistent new_id k emb s h.0 c in
        let (s', d, c'', e') = run_keeps_track key p calls r.0 c' h.1 (kept key p e) in
        (s', rw a d, c'', e')
    run_keeps_track key p (cleaning active ∷ calls) s c h e =
        run_keeps_track key p calls (cleanup_lost_tracks active s) (cleanup-IsConsistent active s c)
          h.1 (ground (arith, lookup-cleanup_lost_tracks key active s))
