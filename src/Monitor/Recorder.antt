-- ===== src/Monitor/Recorder.antt =====
-- `recorder_values` and `recorder` of docker/home-service-monitor/monitor.py. The times of the
-- recorder are milliseconds, and `now` is in microseconds.
pub mod Due
use Prim.Native.String.{◌++◌ as ◌<>◌}
use my_infra.Prelude.{
  ℕ, ◌+◌, ◌-◌, ◌*◌, Bool, true, false, not, ◌&&◌, List, [], ◌∷◌, String, ltb, leb, length, ◌==◌,
  nat_eq, if◌then◌else◌,
}
use my_infra.Prelude.Action.{Result, ok, err, then_do, ◌>>=◌, ◌>>◌, pure, raise}
use my_infra.Monitor.Metrics.{Error, whole, micro}
use my_infra.Monitor.Scan.{Call, get, get_page, Act, ask, add}
use my_infra.Monitor.Pages.{Page, pages}

pub record Reserve : Type 0 where
  pub channel_id : ℕ
  pub start_at : ℕ
  pub end_at : ℕ
  pub is_skip : Bool
  pub is_conflict : Bool

pub record Recorded : Type 0 where
  pub channel_id : ℕ
  pub start_at : ℕ
  pub end_at : ℕ
  pub is_recording : Bool
  -- Whether it has a list of video files that is not empty.
  pub video_files : Bool

pub record Encodes : Type 0 where
  -- When the recording of each waiting item ended.
  pub wait_items : List ℕ
  pub running_items : ℕ

abbrev pub Key : Type 0
Key = ℕ × ℕ

abbrev key_eqb : Key → Key → Bool
key_eqb (a, b) (c, d) = a == c && b == d

unfoldable pub has_key : List Recorded → Key → Bool
has_key [] k = false
has_key (r ∷ rs) k =
    let rest = has_key rs k in if key_eqb (r.channel_id, r.start_at) k then true else rest

-- Microseconds.
abbrev pub us : ℕ → ℕ
us ms = ms * 1_000

unfoldable pub is_overdue : List Recorded → List Recorded → ℕ → Reserve → Bool
unfolding has_key
is_overdue recordings recorded now r =
    not r.is_skip
    && ltb (us r.start_at + 120_000_000) now
    && ltb now (us r.end_at)
    && not (has_key recordings (r.channel_id, r.start_at))
    && not (has_key recorded (r.channel_id, r.start_at))

unfoldable pub is_conflicting : ℕ → Reserve → Bool
is_conflicting now r = not r.is_skip && r.is_conflict && ltb (us r.start_at) (now + 86_400_000_000)

unfoldable pub misses_video : ℕ → Recorded → Bool
misses_video now r =
    ltb now (us r.end_at + 3_600_000_000)
    && ltb (us r.end_at) now
    && not r.is_recording
    && not r.video_files

unfoldable pub has_stopped : ℕ → Recorded → Bool
has_stopped now r =
    not r.is_recording
    && ltb (us r.start_at + 120_000_000) now
    && ltb (now + 120_000_000) (us r.end_at)

-- `len([x for x in xs if test(x)])`
unfoldable pub count_if : {A : Type 0} → (A → Bool) → List A → ℕ
count_if test [] = 0
count_if test (x ∷ xs) = let rest = count_if test xs in if test x then rest + 1 else rest

abbrev max : ℕ → ℕ → ℕ
max a b = if leb a b then b else a

-- `max([max(0, now - end) for end in ends] or [0])`
unfoldable pub oldest_age : ℕ → List ℕ → ℕ
oldest_age now [] = 0
oldest_age now (end ∷ ends) = max (now - us end) (oldest_age now ends)

unfoldable pub recorder_values :
    List Reserve → List Recorded → List Recorded → Encodes → ℕ → Act (Unit {0})
unfolding add count_if is_overdue is_conflicting misses_video has_stopped oldest_age
recorder_values reserves recordings recorded encodes now = do
  add "home_recording_not_started" (whole (count_if (is_overdue recordings recorded now) reserves))
      []
  add "home_recording_conflicts" (whole (count_if (is_conflicting now) reserves)) []
  add "home_recording_missing_video" (whole (count_if (misses_video now) recorded)) []
  add "home_recording_interrupted" (whole (count_if (has_stopped now) recorded)) []
  add "home_encode_waiting" (whole (length encodes.wait_items)) []
  add "home_encode_running" (whole encodes.running_items) []
  add "home_encode_oldest_recording_age_seconds" (micro (oldest_age now encodes.wait_items)) []

-- The recorder's server, and `time.time()` in microseconds.
pub record RecorderWorld : Type 0 where
  pub reserves : List Call → ℕ → Result Error (Page Reserve)
  pub recording : List Call → ℕ → Result Error (Page Recorded)
  pub recorded : List Call → Result Error (List Recorded)
  pub encode : List Call → Result Error Encodes
  pub time : List Call → ℕ

module _ (w : RecorderWorld) (url : String) where
  abbrev now_values : List Reserve → List Recorded → List Recorded → Encodes → Act (Unit {0})
  now_values reserves recordings recorded encodes s =
      recorder_values reserves recordings recorded encodes (w.time s.log) s

  unfoldable pub recorder : Act (Unit {0})
  unfolding pages recorder_values
  recorder = do
    let base = url <> "/api/"
    reserves ← pages (λ offset.
        ask (get_page (base <> "reserves?isHalfWidth=true") offset) (λ log. w.reserves log offset))
    recordings ← pages (λ offset.
        ask (get_page (base <> "recording?isHalfWidth=true") offset)
          (λ log. w.recording log offset))
    recorded ←
        ask (get (base <> "recorded?isHalfWidth=true&offset=0&limit=100")) (λ log. w.recorded log)
    encodes ← ask (get (base <> "encode?isHalfWidth=true")) (λ log. w.encode log)
    now_values reserves recordings recorded encodes
