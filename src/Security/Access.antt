-- ===== src/Security/Access.antt =====
-- Who may call the webhook and the panel: `verify_webhook_secret` and `require_panel_auth` of
-- app/security.py. The audit events are left out.
use chokobot.Common.{
  ℕ, String, ◌≡◌, Bool, true, false, not, ◌&&◌, ◌||◌, Option, none, some, List, [], ◌∷◌, arith,
  strip, codes, str_eq, ltb, if◌then◌else◌,
}

pub record Settings : Type 0 where
  pub webhook_secret : String
  pub webhook_verify_enabled : Bool
  pub panel_auth_enabled : Bool
  pub panel_auth_username : String
  pub panel_auth_password : String

pub record Credentials : Type 0 where
  pub username : String
  pub password : String

-- The call goes on, ends with an HTTPException of a status and a detail, or with an error.
pub data Access : Type 0 where
  allowed : Access
  refused : ℕ → String → Access
  raised : Access

abbrev pub is_allowed : Access → Bool
is_allowed allowed = true
is_allowed _ = false

unfoldable pub all_ascii : List ℕ → Bool
all_ascii [] = true
all_ascii (x ∷ xs) = ltb x 128 && all_ascii xs

-- `hmac.compare_digest` of two texts raises TypeError where one of them is not ASCII.
unfoldable pub compare_digest : String → String → Option Bool
compare_digest a b = if all_ascii (codes a) && all_ascii (codes b) then some (str_eq a b) else none

unfoldable pub webhook_verification_enabled : Settings → Bool
webhook_verification_enabled s =
    if str_eq s.webhook_secret "" then s.webhook_verify_enabled else true

unfoldable pub verify_webhook_secret : Settings → String → Access
unfolding webhook_verification_enabled compare_digest
verify_webhook_secret s secret_value =
    if not (webhook_verification_enabled s)
    then allowed
    else if str_eq s.webhook_secret ""
    then refused 503 "webhook_not_configured"
    else elim (compare_digest (strip secret_value) s.webhook_secret) [
      | none ↦ raised
      | some true ↦ allowed
      | some false ↦ refused 401 "invalid_webhook_secret"
    ]

-- `valid_username and valid_password`, after both comparisons
unfoldable pub judge : Option Bool → Option Bool → Access
judge none b = raised
judge (some a) none = raised
judge (some a) (some b) = if a && b then allowed else refused 401 "invalid_panel_credentials"

unfoldable pub require_panel_auth : Settings → Option Credentials → Access
unfolding judge compare_digest
require_panel_auth s credentials =
    if not s.panel_auth_enabled
    then allowed
    else if str_eq s.panel_auth_username "" || str_eq s.panel_auth_password ""
    then refused 503 "panel_auth_not_configured"
    else elim credentials [
      | none ↦ refused 401 "panel_auth_required"
      | some p ↦
          judge (compare_digest p.username s.panel_auth_username)
            (compare_digest p.password s.panel_auth_password)
    ]

-- With verification on, by the setting or because there is a secret, a call of the webhook goes on
-- exactly when there is a secret, the value given is that secret once stripped, and both are ASCII.
-- With verification off every call goes on.
pub verify_webhook_secret_closed :
    (s : Settings) (secret_value : String)
    → is_allowed (verify_webhook_secret s secret_value) ≡ (
        not (webhook_verification_enabled s)
        || (not (str_eq s.webhook_secret "")
            && ((all_ascii (codes (strip secret_value)) && all_ascii (codes s.webhook_secret))
                && str_eq (strip secret_value) s.webhook_secret)))
unfolding verify_webhook_secret compare_digest
verify_webhook_secret_closed s secret_value = ground arith

-- whether credentials are the ones of the settings
abbrev pub matches : Settings → Option Credentials → Bool
matches s none = false
matches s (some p) =
    (all_ascii (codes p.username) && all_ascii (codes s.panel_auth_username))
    && ((all_ascii (codes p.password) && all_ascii (codes s.panel_auth_password))
        && (str_eq p.username s.panel_auth_username && str_eq p.password s.panel_auth_password))

-- With the panel's authentication on, a call goes on exactly when a user name and a password are
-- configured and the credentials are those, all ASCII: never where either is missing. With it off
-- every call goes on.
pub require_panel_auth_closed :
    (s : Settings) (credentials : Option Credentials)
    → is_allowed (require_panel_auth s credentials) ≡ (
        not s.panel_auth_enabled
        || ((not (str_eq s.panel_auth_username "") && not (str_eq s.panel_auth_password ""))
            && matches s credentials))
unfolding require_panel_auth judge compare_digest
require_panel_auth_closed s none = ground arith
require_panel_auth_closed s (some p) = ground arith
