-- ===== src/Handoff/Alerts.antt =====
-- `_record_failure_alert_if_needed` (app/application/use_cases/manage_human_handoff.py): an alert for
-- a topic when its failures within a window reach a threshold, and then none for one window.
pub mod Spacing
use chokobot.Store.{minutes}
use chokobot.Common.{
  ℕ, ◌+◌, max, Bool, true, false, Option, none, some, List, [], ◌∷◌, ◌++◌, length, leb, ltb,
  if◌then◌else◌,
}

-- What the source keeps for one topic.
pub record Watch : Type 0 where
  pub samples : List ℕ
  pub last_alert : Option ℕ

pub record AlertSettings : Type 0 where
  pub threshold : ℕ
  pub window_minutes : ℕ

abbrev pub window_of : AlertSettings → ℕ
window_of settings = minutes (max 1 settings.window_minutes)

-- `[sample for sample in samples if (now - sample) <= window]`
unfoldable pub recent_samples : ℕ → ℕ → List ℕ → List ℕ
recent_samples window now [] = []
recent_samples window now (t ∷ ts) =
    let rest = recent_samples window now ts in if leb now (t + window) then t ∷ rest else rest

abbrev pub is_quiet : ℕ → ℕ → Option ℕ → Bool
is_quiet window now none = true
is_quiet window now (some last) = ltb (last + window) now

-- Whether an alert is raised, and the watch after it.
unfoldable pub record_failure_alert_if_needed : AlertSettings → ℕ → Watch → Bool × Watch
record_failure_alert_if_needed settings now w =
    let samples = recent_samples (window_of settings) now w.samples ++ now ∷ [] in
    if ltb (length samples) (max 1 settings.threshold)
    then (false, record w { samples = samples })
    else if is_quiet (window_of settings) now w.last_alert
    then (true, record { samples = samples; last_alert = some now })
    else (false, record w { samples = samples })
