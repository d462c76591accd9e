-- ===== src/Handoff/Alerts/Spacing.antt =====
-- How often a topic alerts, over any sequence of its failures.
use chokobot.Handoff.Alerts.{
  Watch, AlertSettings, window_of, is_quiet, recent_samples, record_failure_alert_if_needed,
}
use mathlib.Core.Path.{subst}
use chokobot.Common.{
  ℕ, ◌+◌, ◌<◌, max, length, ◌++◌, ◌≡◌, ◌⊎◌, inl, inr, refl, true, false, Option, none, some, List,
  [], ◌∷◌, arith, ltb, Bool-cases, if◌then◌else◌,
}

-- The instants at which failures at the given instants raise an alert.
unfoldable pub alerts : AlertSettings → List ℕ → Watch → List ℕ
unfolding record_failure_alert_if_needed
alerts settings [] w = []
alerts settings (now ∷ later) w =
    let (raised, w') = record_failure_alert_if_needed settings now w in
    let rest = alerts settings later w' in if raised then now ∷ rest else rest

-- Each instant is more than `gap` after the one before it.
unfoldable pub IsSpaced : ℕ → Option ℕ → List ℕ → Type 0
IsSpaced gap last [] = Unit
IsSpaced gap none (t ∷ ts) = IsSpaced gap (some t) ts
IsSpaced gap (some last) (t ∷ ts) = (last + gap < t) × IsSpaced gap (some t) ts

IsSpaced-cons :
    (gap : ℕ) (last : Option ℕ) (now : ℕ) (ts : List ℕ)
    → IsSpaced gap last (now ∷ [])
    → IsSpaced gap (some now) ts
    → IsSpaced gap last (now ∷ ts)
unfolding IsSpaced
IsSpaced-cons gap none now ts first rest = rest
IsSpaced-cons gap (some last) now ts first rest = (first.0, rest)

is_quiet-IsSpaced :
    (gap now : ℕ) (last : Option ℕ) → is_quiet gap now last ≡ true → IsSpaced gap last (now ∷ [])
unfolding IsSpaced
is_quiet-IsSpaced gap now none h = tt
is_quiet-IsSpaced gap now (some last) h = (ground arith, tt)

-- One failure: no alert and the same last alert, or an alert that is far enough from the last.
record_failure_cases :
    (settings : AlertSettings) (now : ℕ) (w : Watch)
    → let (raised, w') = record_failure_alert_if_needed settings now w in
      ((raised ≡ false) × (w'.last_alert ≡ w.last_alert))
      ⊎ ((raised ≡ true)
          × (w'.last_alert ≡ some now)
          × IsSpaced (window_of settings) w.last_alert (now ∷ []))
unfolding record_failure_alert_if_needed IsSpaced
record_failure_cases settings now w =
    elim (Bool-cases (
      ltb (length (recent_samples (window_of settings) now w.samples ++ now ∷ []))
        (max 1 settings.threshold))) [
          | inl few ↦ inl (rw few (refl, refl))
          | inr many ↦ elim (Bool-cases (is_quiet (window_of settings) now w.last_alert)) [
            | inl quiet ↦ inr (
                rw (many, quiet)
                  (refl, refl, is_quiet-IsSpaced (window_of settings) now w.last_alert quiet))
            | inr busy ↦ inl (rw (many, busy) (refl, refl))
          ]
        ]

-- Whatever the failures of a topic and their instants, any two alerts for it that follow one another
-- are more than one window apart, also from the last alert before them.
pub alerts-IsSpaced :
    (settings : AlertSettings) (times : List ℕ) (w : Watch)
    → IsSpaced (window_of settings) w.last_alert (alerts settings times w)
unfolding IsSpaced alerts
alerts-IsSpaced settings [] w = tt
alerts-IsSpaced settings (now ∷ later) w =
    let (raised, w') = record_failure_alert_if_needed settings now w in
    let rest = alerts-IsSpaced settings later w' in
    elim (record_failure_cases settings now w) [
      | inl (quiet, same) ↦
          rw quiet
            (subst (λ l. IsSpaced (window_of settings) l (alerts settings later w')) same rest)
      | inr (loud, new, apart) ↦ rw loud (
          IsSpaced-cons (window_of settings) w.last_alert now (alerts settings later w') apart
            (subst (λ l. IsSpaced (window_of settings) l (alerts settings later w')) new rest))
    ]
