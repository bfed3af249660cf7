-- ===== src/AiService/Associator/Threads.antt =====
-- Calls of `associate` from several threads. The lock is held in each of the three sections of a call
-- and free between them: the cache check, `match_or_create` (under the gallery's own lock), and the
-- write of the cache.
use intelligent_multi_camera.Prelude.{
  ℕ, ◌≡◌, Bool, true, false, List, none, some, arith, Eq, string_eq, nat_eq, pair_eq, ◌==◌,
  if◌then◌else◌, if_both, subst, length,
}
use intelligent_multi_camera.Prelude.Dict.{lookup, insert, has, lookup-insert}
use intelligent_multi_camera.Prelude.Float.{Float}
use intelligent_multi_camera.AiService.Embedding.{Numpy, KeepsShape}
use intelligent_multi_camera.AiService.Gallery.{PersonGallery, match_or_create}
use intelligent_multi_camera.AiService.Gallery.Valid.{Knows, match_or_create-Knows}
use intelligent_multi_camera.AiService.Associator.{TrackKey, MtmcAssociator, cleanup_lost_tracks}
use intelligent_multi_camera.AiService.Associator.Sequential.{IsConsistent, cleanup-IsConsistent}

-- Where a thread stands in its call.
pub data Phase (F Uid : Type 0) : Type 0 where
  idle : Phase F Uid
  checking missed : TrackKey → List F → Phase F Uid
  matched : TrackKey → Uid → Bool → Phase F Uid
  returned : Uid → Bool → Phase F Uid

pub record World (F Uid : Type 0) : Type 0 where
  pub shared : MtmcAssociator F Uid
  pub phase : ℕ → Phase F Uid

abbrev pub at : {F Uid : Type 0} → ℕ → Phase F Uid → World F Uid → ℕ → Phase F Uid
at t ph w i = if i == t then ph else w.phase i

module _ {F Uid : Type 0} ⦃fl : Float F⦄ ⦃eq : Eq Uid⦄ (np : Numpy F) (n : ℕ) where
  -- Embeddings have the dimension that the extractor checks.
  pub data Step (w : World F Uid) : World F Uid → Type 0 where
    call :
        (t : ℕ) (key : TrackKey) (emb : List F)
        → length emb ≡ n
        → Step w (record w { phase = at t (checking key emb) w })
    hit :
        (t : ℕ) (key : TrackKey) (emb : List F) (p : Uid)
        → w.phase t ≡ checking key emb
        → lookup key w.shared.track_to_person ≡ some p
        → Step w (record w { phase = at t (returned p false) w })
    miss :
        (t : ℕ) (key : TrackKey) (emb : List F)
        → w.phase t ≡ checking key emb
        → lookup key w.shared.track_to_person ≡ none
        → Step w (record w { phase = at t (missed key emb) w })
    match :
        (t : ℕ) (key : TrackKey) (emb : List F) (new_id : Uid)
        (r : PersonGallery F Uid × Uid × Bool)
        → w.phase t ≡ missed key emb
        → match_or_create np new_id emb w.shared.gallery ≡ some r
        → Step w (record {
          shared = record { gallery = r.0; track_to_person = w.shared.track_to_person };
          phase = at t (matched key r.1 r.2) w;
        })
    store :
        (t : ℕ) (key : TrackKey) (p : Uid) (b : Bool)
        → w.phase t ≡ matched key p b
        → Step w (record {
          shared = record {
            gallery = w.shared.gallery;
            track_to_person = insert key p w.shared.track_to_person;
          };
          phase = at t (returned p b) w;
        })
    clean :
        (active : List TrackKey)
        → Step w (record w { shared = cleanup_lost_tracks active w.shared })

  pub data Reach (w : World F Uid) : World F Uid → Type 0 where
    here : Reach w w
    next : {u v : World F Uid} → Reach w u → Step u v → Reach w v

  -- What a thread has in hand: an embedding of the right dimension, or a person of the gallery.
  abbrev pub IsSound : PersonGallery F Uid → Phase F Uid → Type 0
  IsSound g idle = Unit
  IsSound g (checking key emb) = length emb ≡ n
  IsSound g (missed key emb) = length emb ≡ n
  IsSound g (matched key p b) = has p g.gallery ≡ true
  IsSound g (returned p b) = has p g.gallery ≡ true

  pub record IsSafe (w : World F Uid) : Type 0 where
    pub consistent : IsConsistent n w.shared
    pub sound : (t : ℕ) → IsSound w.shared.gallery (w.phase t)

  IsSound-at :
      (g : PersonGallery F Uid) (w : World F Uid) (t : ℕ) (ph : Phase F Uid)
      → IsSound g ph
      → ((i : ℕ) → IsSound g (w.phase i))
      → (i : ℕ) → IsSound g (at t ph w i)
  IsSound-at g w t ph h all i = if_both (IsSound g) (i == t) ph (w.phase i) h (all i)

  grown-IsSound :
      (g g' : PersonGallery F Uid) (ph : Phase F Uid)
      → ((p : Uid) → has p g.gallery ≡ true → has p g'.gallery ≡ true)
      → IsSound g ph
      → IsSound g' ph
  grown-IsSound g g' idle k h = h
  grown-IsSound g g' (checking key emb) k h = h
  grown-IsSound g g' (missed key emb) k h = h
  grown-IsSound g g' (matched key p b) k h = k p h
  grown-IsSound g g' (returned p b) k h = k p h

  module _ (shape : KeepsShape np) where
    pub Step-IsSafe : {w w' : World F Uid} → Step w w' → IsSafe w → IsSafe w'
    unfolding cleanup_lost_tracks
    Step-IsSafe {w = w} (call t key emb h) s = record {
      consistent = s.consistent;
      sound = IsSound-at w.shared.gallery w t (checking key emb) h s.sound;
    }
    Step-IsSafe {w = w} (hit t key emb p e found) s = record {
      consistent = s.consistent;
      sound =
          IsSound-at w.shared.gallery w t (returned p false) (s.consistent.known key p found)
            s.sound;
    }
    Step-IsSafe {w = w} (miss t key emb e absent) s = record {
      consistent = s.consistent;
      sound =
          IsSound-at w.shared.gallery w t (missed key emb)
            (subst (IsSound w.shared.gallery) e (s.sound t)) s.sound;
    }
    Step-IsSafe {w = w} (match t key emb new_id r e m) s =
        let dim : length emb ≡ n = subst (IsSound w.shared.gallery) e (s.sound t) in
        let (r', m', k) =
          match_or_create-Knows n np shape new_id emb w.shared.gallery dim s.consistent.valid in
        let same : r' ≡ r = ground arith in
        let k' : Knows n w.shared.gallery r = subst (Knows n w.shared.gallery) same k in
        record {
          consistent = record {
            valid = k'.valid;
            known = λ j p l. k'.kept p (s.consistent.known j p l);
          };
          sound =
              IsSound-at r.0 w t (matched key r.1 r.2) k'.present
                (λ i. grown-IsSound w.shared.gallery r.0 (w.phase i) k'.kept (s.sound i));
        }
    Step-IsSafe {w = w} (store t key p b e) s =
        let present : has p w.shared.gallery.gallery ≡ true =
          subst (IsSound w.shared.gallery) e (s.sound t) in
        record {
          consistent = record {
            valid = s.consistent.valid;
            known = λ j q l.
                ground
                  (arith, lookup-insert j key p w.shared.track_to_person, s.consistent.known j q);
          };
          sound = IsSound-at w.shared.gallery w t (returned p b) present s.sound;
        }
    Step-IsSafe {w = w} (clean active) s = record {
      consistent = cleanup-IsConsistent n active w.shared s.consistent;
      sound = s.sound;
    }

    -- In every interleaving of calls and cleanups from a safe state the gallery stays valid, every
    -- cached track names a person of the gallery, and so does every answer.
    pub Reach-IsSafe : {w w' : World F Uid} → IsSafe w → Reach w w' → IsSafe w'
    Reach-IsSafe s here = s
    Reach-IsSafe s (next r st) = Step-IsSafe st (Reach-IsSafe s r)
