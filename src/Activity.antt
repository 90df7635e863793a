-- ===== src/Activity.antt =====
-- `ActivityRecorder` of app/jobs/events.py: the progress of the runs that go on, and the totals of
-- the session, the time since the last idle moment. A speed is a whole number of bytes.
pub mod Session
use hivesync.Prelude.{
  ℕ, zero, suc, ◌+◌, ◌-◌, ◌≤◌, Option, none, some, List, [], ◌∷◌, ◌++◌, leb, if◌then◌else◌, length,
  drop, max,
}
use hivesync.Prelude.Dict.{Dict, get, put, pop}
use hivesync.Parsers.{TransferStats}

pub record SpeedSample : Type 0 where
  pub at : ℕ
  pub speed : ℕ

pub record Recorder : Type 0 where
  pub latest : Dict TransferStats
  pub samples : List SpeedSample
  pub session_bytes : ℕ
  pub session_max_speed : ℕ
  pub counted : Dict ℕ

abbrev pub idle_recorder : Recorder
idle_recorder = record {
  latest = [];
  samples = [];
  session_bytes = 0;
  session_max_speed = 0;
  counted = [];
}

-- One hour at an interval of five seconds.
abbrev pub sample_memory : ℕ
sample_memory = 720

-- `deque(maxlen=_SAMPLE_MEMORY).append`
abbrev pub append_sample : SpeedSample → List SpeedSample → List SpeedSample
append_sample s samples = let grown = samples ++ s ∷ [] in drop (length grown - sample_memory) grown

abbrev pub total_speed : Dict TransferStats → ℕ
total_speed [] = 0
total_speed ((run_id, s) ∷ d) = s.speed + total_speed d

abbrev pub or_zero : Option ℕ → ℕ
or_zero none = 0
or_zero (some n) = n

unfoldable pub record_stats : ℕ → TransferStats → ℕ → Recorder → Recorder
record_stats run_id s moment r =
    let latest = put run_id s r.latest in
    let previous = or_zero (get run_id r.counted) in
    record {
      latest = latest;
      samples = append_sample (record { at = moment; speed = total_speed latest }) r.samples;
      session_bytes =
          if leb previous s.bytes_done
          then r.session_bytes + (s.bytes_done - previous)
          else r.session_bytes;
      session_max_speed = max r.session_max_speed (total_speed latest);
      counted = put run_id s.bytes_done r.counted;
    }

-- The session is cleared where nothing is left.
abbrev pub cleared_if_idle : Dict TransferStats → Recorder → Recorder
cleared_if_idle [] r = record r { session_bytes = 0; session_max_speed = 0; counted = [] }
cleared_if_idle (e ∷ d) r = r

unfoldable pub forget : ℕ → ℕ → Recorder → Recorder
forget run_id now r =
    let latest = pop run_id r.latest in
    cleared_if_idle latest (record r {
      latest = latest;
      counted = pop run_id r.counted;
      samples = append_sample (record { at = now; speed = total_speed latest }) r.samples;
    })

abbrev pub baselines : Dict TransferStats → Dict ℕ
baselines [] = []
baselines ((run_id, s) ∷ d) = (run_id, s.bytes_done) ∷ baselines d

unfoldable pub reset_session : Recorder → Recorder
reset_session r = record r {
  session_bytes = 0;
  session_max_speed = 0;
  counted = baselines r.latest;
}
