-- ===== src/Tests/Guards.antt =====
-- The guards of the webhook and the panel.
use chokobot.Clock.{Codes}
use chokobot.Schedule.Calendar.{member_codes}
use chokobot.Security.Phones.{is_phone_automation_disabled, normalize_phone}
use chokobot.Security.Phones.Numbers.{HasNational, HaveNationals, is_phone_automation_disabled_lem}
use chokobot.Common.{
  Bool, ◌&&◌, leb, codes, inl, inr, ℕ, ◌≡◌, refl, true, false, some, Dict, [], ◌∷◌, arith, strip,
}
use chokobot.Security.Access.{
  Settings, is_allowed, verify_webhook_secret, require_panel_auth, verify_webhook_secret_closed,
  require_panel_auth_closed, webhook_verification_enabled, all_ascii,
}

-- the digits of ASCII alone
abbrev is_digit : ℕ → Bool
is_digit c = leb 48 c && leb c 57

abbrev old_cache : Dict ℕ
old_cache = ("m0", 1) ∷ ("m1", 2) ∷ []

abbrev guarded : Settings
guarded = record {
  webhook_secret = "s3cret";
  webhook_verify_enabled = false;
  panel_auth_enabled = true;
  panel_auth_username = "choko";
  panel_auth_password = "delicia";
}

verify_webhook_secret_closed_example : is_allowed (verify_webhook_secret guarded " s3cret ") ≡ true
unfolding webhook_verification_enabled all_ascii strip
verify_webhook_secret_closed_example = verify_webhook_secret_closed guarded " s3cret "

require_panel_auth_closed_example :
    is_allowed (require_panel_auth guarded (some (record { username = "choko"; password = "x" })))
    ≡ false
unfolding all_ascii
require_panel_auth_closed_example =
    require_panel_auth_closed guarded (some (record { username = "choko"; password = "x" }))

-- "(16) 99999-0000" is blocked, and "+55 16 99999 0000" writes.
abbrev national : Codes
national = codes "16999990000"

is_phone_automation_disabled_lem_example :
    is_phone_automation_disabled is_digit (codes "(16) 99999-0000" ∷ []) (codes "+55 16 99999 0000")
    ≡ member_codes national (national ∷ [])
unfolding normalize_phone HasNational HaveNationals
is_phone_automation_disabled_lem_example =
    is_phone_automation_disabled_lem is_digit (codes "(16) 99999-0000" ∷ []) (national ∷ [])
      (codes "+55 16 99999 0000") national ((omega arith, omega arith, inl refl), tt)
      (omega arith, omega arith, inr refl)
