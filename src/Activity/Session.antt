-- ===== src/Activity/Session.antt =====
-- The bytes of a session, in app/jobs/events.py.
use hivesync.Prelude.{ℕ, ◌+◌, ◌≤◌, ◌≡◌, refl, Option, none, some, List, [], ◌∷◌, arith}
use hivesync.Prelude.Dict.{Dict, get, get-put}
use hivesync.Parsers.{TransferStats}
use hivesync.Activity.{Recorder, or_zero, record_stats, reset_session, baselines}

-- The stats of one run, recorded one after the other.
unfoldable pub record_all : ℕ → List (TransferStats × ℕ) → Recorder → Recorder
record_all run_id [] r = r
record_all run_id ((s, at) ∷ rest) r = record_all run_id rest (record_stats run_id s at r)

-- The counts never fall, from `before` on.
abbrev pub Rising : ℕ → List (TransferStats × ℕ) → Type 0
Rising before [] = Unit
Rising before ((s, at) ∷ rest) = (before ≤ s.bytes_done) × Rising s.bytes_done rest

abbrev pub last_count : ℕ → List (TransferStats × ℕ) → ℕ
last_count before [] = before
last_count before ((s, at) ∷ rest) = last_count s.bytes_done rest

abbrev bytes_of : Option TransferStats → ℕ
bytes_of none = 0
bytes_of (some s) = s.bytes_done

get-baselines :
    (i : ℕ) (d : Dict TransferStats) → or_zero (get i (baselines d)) ≡ bytes_of (get i d)
unfolding get
get-baselines i [] = refl
get-baselines i ((j, t) ∷ d) = ground (arith, get-baselines i d)

counted-record :
    (i : ℕ) (s : TransferStats) (at : ℕ) (r : Recorder)
    → or_zero (get i (record_stats i s at r).counted) ≡ s.bytes_done
unfolding record_stats
counted-record i s at r = ground (arith, get-put i i s.bytes_done r.counted)

session-record :
    (i : ℕ) (s : TransferStats) (at : ℕ) (r : Recorder)
    → or_zero (get i r.counted) ≤ s.bytes_done
    → (record_stats i s at r).session_bytes + or_zero (get i r.counted)
      ≡ r.session_bytes + s.bytes_done
unfolding record_stats
session-record i s at r h = ground (arith, h)

-- However often a run reports, the session grows by what the run moved in between, as long as its
-- counts do not fall: no byte is counted twice.
pub record_all-session :
    (i : ℕ) (reports : List (TransferStats × ℕ)) (r : Recorder)
    → Rising (or_zero (get i r.counted)) reports
    → (record_all i reports r).session_bytes + or_zero (get i r.counted)
      ≡ r.session_bytes + last_count (or_zero (get i r.counted)) reports
unfolding record_all
record_all-session i [] r h = refl
record_all-session i ((s, at) ∷ rest) r h =
    let counted = counted-record i s at r in
    let more = record_all-session i rest (record_stats i s at r) (rw counted h.1) in
    let once = session-record i s at r h.0 in
    let more' : (record_all i rest (record_stats i s at r)).session_bytes + s.bytes_done
        ≡ (record_stats i s at r).session_bytes + last_count s.bytes_done rest =
      rw counted at more in
    omega (arith, more', once)

-- After a reset part way through a run, the session counts what the run moves from then on.
pub reset_session-counts :
    (i : ℕ) (s : TransferStats) (reports : List (TransferStats × ℕ)) (r : Recorder)
    → get i r.latest ≡ some s
    → Rising s.bytes_done reports
    → (record_all i reports (reset_session r)).session_bytes + s.bytes_done
      ≡ last_count s.bytes_done reports
unfolding reset_session
reset_session-counts i s reports r there rising =
    let counted : or_zero (get i (reset_session r).counted) ≡ s.bytes_done =
      ground (arith, get-baselines i r.latest, there) in
    let moved = record_all-session i reports (reset_session r) (rw counted rising) in
    let moved' : (record_all i reports (reset_session r)).session_bytes + s.bytes_done
        ≡ 0 + last_count s.bytes_done reports =
      rw counted at moved in
    omega (arith, moved')
