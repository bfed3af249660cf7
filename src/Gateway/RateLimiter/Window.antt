-- ===== src/Gateway/RateLimiter/Window.antt =====
-- The local limiter against a log of admissions: at most `limit` requests of a client in a minute.
use intelligent_multi_camera.Prelude.{
  ℕ, ◌+◌, ◌≤◌, ◌<◌, ◌≡◌, refl, String, string_eq, Bool, true, false, List, [], ◌∷◌, ◌++◌, arith,
  sym, ap, subst, Bool-cases, inl, inr, ltb, leb, ◌==◌, if◌then◌else◌, keep, length, length-append,
  keep-append, keep-keep, length-keep_mono, length-keep-le,
}
use intelligent_multi_camera.Prelude.Dict.{lookup, insert, lookup-insert, length-insert}
use intelligent_multi_camera.Gateway.RateLimiter.{
  Log, max_in_memory_entries, times_of, is_recent, garbage_collect_in_memory, check_in_memory,
}

-- The requests admitted so far, in order.
abbrev pub History : Type 0
History = List (String × ℕ)

abbrev pub admitted : String → History → List ℕ
admitted ip [] = []
admitted ip ((j, t) ∷ h) = let rest = admitted ip h in if ip == j then t ∷ rest else rest

-- The requests of a client that were admitted in the minute before `now`.
abbrev pub in_window : ℕ → String → History → ℕ
in_window now ip h = length (keep (is_recent now) (admitted ip h))

abbrev pub note : String → ℕ → Bool → History → History
note ip now ok h = if ok then h ++ ((ip, now) ∷ []) else h

-- The dict holds, for each client, the part of the log that still counts; and no window is overfull.
pub record Tracks (limit last : ℕ) (db : Log) (h : History) : Type 0 where
  pub agree :
      (ip : String) (now : ℕ)
      → last ≤ now
      → keep (is_recent now) (times_of ip db) ≡ keep (is_recent now) (admitted ip h)
  pub bounded : (ip : String) (now : ℕ) → last ≤ now → in_window now ip h ≤ limit

-- What a check should answer and leave behind.
pub record Checked (limit : ℕ) (db : Log) (h : History) (ip : String) (now : ℕ) (r : Bool × Log)
    : Type 0 where
  pub answer : r.0 ≡ ltb (in_window now ip h) limit
  pub in_step : Tracks limit now r.1 (note ip now r.0 h)
  pub grown : length r.1 ≤ length db + 1

times_of-insert :
    (ip j : String) (ts : List ℕ) (db : Log)
    → times_of ip (insert j ts db) ≡ (if ip == j then ts else times_of ip db)
unfolding times_of
times_of-insert ip j ts db = ground (arith, lookup-insert ip j ts db)

admitted-append :
    (ip j : String) (t : ℕ) (h : History)
    → admitted ip (h ++ ((j, t) ∷ []))
      ≡ (if ip == j then admitted ip h ++ (t ∷ []) else admitted ip h)
admitted-append ip j t [] = ground arith
admitted-append ip j t ((k, u) ∷ h) = ground (arith, admitted-append ip j t h)

recent_later :
    (now later : ℕ) → now ≤ later → (t : ℕ) → is_recent later t ≡ true → is_recent now t ≡ true
recent_later now later h t r = ground arith

module _ (limit last : ℕ) (db : Log) (h : History) (tracks : Tracks limit last db h) where
  -- A refused request changes only what no longer counts.
  refuse-Tracks :
      (ip : String) (now : ℕ)
      → last ≤ now
      → Tracks limit now (insert ip (keep (is_recent now) (times_of ip db)) db) h
  refuse-Tracks ip now le = record {
    agree = λ j later later_le.
        let same = tracks.agree j later (omega arith) in
        let ts = times_of ip db in
        ground (
          arith,
          times_of-insert j ip (keep (is_recent now) ts) db,
          keep-keep (is_recent later) (is_recent now) ts (recent_later now later later_le),
          same,
        );
    bounded = λ j later later_le. tracks.bounded j later (omega arith);
  }

  admit-Tracks :
      (ip : String) (now : ℕ)
      → last ≤ now
      → in_window now ip h < limit
      → Tracks limit now
          (insert ip (keep (is_recent now) (times_of ip db) ++ (now ∷ [])) db)
          (h ++ ((ip, now) ∷ []))
  admit-Tracks ip now le room = record {
    agree = λ j later later_le.
        let same = tracks.agree j later (omega arith) in
        let ts = times_of ip db in
        ground (
          arith,
          times_of-insert j ip (keep (is_recent now) ts ++ (now ∷ [])) db,
          admitted-append j ip now h,
          keep-append (is_recent later) (keep (is_recent now) ts) (now ∷ []),
          keep-append (is_recent later) (admitted j h) (now ∷ []),
          keep-keep (is_recent later) (is_recent now) ts (recent_later now later later_le),
          same,
        );
    bounded = λ j later later_le. ground (
      arith,
      admitted-append j ip now h,
      keep-append (is_recent later) (admitted j h) (now ∷ []),
      length-append (keep (is_recent later) (admitted j h)) (keep (is_recent later) (now ∷ [])),
      length-keep_mono (is_recent later) (is_recent now) (admitted j h)
          (recent_later now later later_le),
      length-keep-le (is_recent later) (now ∷ []),
      tracks.bounded j later (omega arith),
    );
  }

  -- While the dict is small enough to need no eviction, a request is admitted exactly when fewer than
  -- `limit` requests of its client were admitted in the last minute, and the log is kept in step.
  pub check_in_memory-Checked :
      (ip : String) (now : ℕ)
      → last ≤ now
      → length db ≤ max_in_memory_entries
      → Checked limit db h ip now (check_in_memory limit now ip db)
  unfolding check_in_memory garbage_collect_in_memory
  check_in_memory-Checked ip now le small =
      let recent = keep (is_recent now) (times_of ip db) in
      let count : length recent ≡ in_window now ip h = ap length (tracks.agree ip now le) in
      elim (Bool-cases (leb limit (length recent))) [
        | inl full ↦
            let e : check_in_memory limit now ip db ≡ (false, insert ip recent db) = ground arith in
            subst (Checked limit db h ip now) (sym e) (record {
              answer = ground arith;
              in_step = refuse-Tracks ip now le;
              grown = ground (arith, length-insert ip recent db);
            })
        | inr room ↦
            let e : check_in_memory limit now ip db ≡ (true, insert ip (recent ++ (now ∷ [])) db) =
              ground arith in
            subst (Checked limit db h ip now) (sym e) (record {
              answer = ground arith;
              in_step = admit-Tracks ip now le (ground arith);
              grown = ground (arith, length-insert ip (recent ++ (now ∷ [])) db);
            })
      ]

-- Serve requests one after the other, and note which were admitted.
unfoldable pub serve : ℕ → List (String × ℕ) → Log → History → Log × History
serve limit [] db h = (db, h)
serve limit ((ip, now) ∷ requests) db h =
    let (ok, db') = check_in_memory limit now ip db in serve limit requests db' (note ip now ok h)

-- The clock does not run backwards; the time of the last request.
abbrev pub IsOrdered : ℕ → List (String × ℕ) → Type 0
IsOrdered last [] = Unit
IsOrdered last ((ip, now) ∷ requests) = (last ≤ now) × IsOrdered now requests

abbrev pub end_time : ℕ → List (String × ℕ) → ℕ
end_time last [] = last
end_time last ((ip, now) ∷ requests) = end_time now requests

serve-Tracks :
    (limit last : ℕ) (requests : List (String × ℕ)) (db : Log) (h : History)
    → Tracks limit last db h
    → IsOrdered last requests
    → length db + length requests ≤ max_in_memory_entries
    → let (db', h') = serve limit requests db h in Tracks limit (end_time last requests) db' h'
unfolding serve
serve-Tracks limit last [] db h t o small = t
serve-Tracks limit last ((ip, now) ∷ requests) db h t o small =
    let (ok, db') = check_in_memory limit now ip db in
    let checked = check_in_memory-Checked limit last db h t ip now o.0 (omega arith) in
    let grown = checked.grown in
    serve-Tracks limit now requests db' (note ip now ok h) checked.in_step o.1 (omega arith)

pub empty-Tracks : (limit : ℕ) → Tracks limit 0 [] []
unfolding times_of lookup
empty-Tracks limit = record { agree = λ ip now le. refl; bounded = λ ip now le. omega arith }

-- From an empty dict, after any run of at most 10,000 requests in the order of time, every client has
-- had at most `limit` requests admitted in the minute before any later moment.
pub serve_bounded :
    (limit : ℕ) (requests : List (String × ℕ)) (ip : String) (now : ℕ)
    → IsOrdered 0 requests
    → length requests ≤ max_in_memory_entries
    → end_time 0 requests ≤ now
    → in_window now ip (serve limit requests [] []).1 ≤ limit
serve_bounded limit requests ip now o small late =
    (serve-Tracks limit 0 requests [] [] (empty-Tracks limit) o (omega arith)).bounded ip now late
