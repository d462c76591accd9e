-- ===== src/Store/OptOut.antt =====
-- `set_phone_opted_out` and `is_phone_opted_out`: the phone's own choice to silence the bot.
use chokobot.Common.{
  ℕ, ◌<◌, String, ◌≡◌, Bool, true, false, not, ◌&&◌, some, arith, insert, lookup-insert,
  lookup-remove, length, length-insert-le, strip, str_eq, eq_iff, if◌then◌else◌,
}
use chokobot.Store.Dedup.{trim_namespace_small}
use chokobot.Store.{
  Store, Stamp, isoformat, opt_out_limit, place_of, is_phone_opted_out, set_phone_opted_out,
  get_phone_opted_out_updated_at,
}
use chokobot.Common.{Option}

-- While there is room for one more phone, a write sets the choice of that phone (as stripped of
-- white space), changes no other phone's, and does nothing for a blank phone.
pub is_phone_opted_out-set_phone_opted_out :
    (p q : String) (value : Bool) (now : ℕ) (s : Store)
    → length s.opt_outs < opt_out_limit
    → is_phone_opted_out q (set_phone_opted_out p value now s) ≡ (
        if not (str_eq (strip p) "") && str_eq (strip p) (strip q)
        then value
        else is_phone_opted_out q s)
unfolding is_phone_opted_out set_phone_opted_out
is_phone_opted_out-set_phone_opted_out p q value now s room =
    let stamp : Option Stamp = some (isoformat now) in
    ground (
      arith,
      eq_iff (strip p) "",
      eq_iff (strip q) "",
      eq_iff (strip p) (strip q),
      trim_namespace_small place_of opt_out_limit (insert (strip p) stamp s.opt_outs),
      length-insert-le (strip p) stamp s.opt_outs,
      lookup-insert (strip p) (strip q) stamp s.opt_outs,
      lookup-remove (strip p) (strip q) s.opt_outs,
    )

-- The instant of the choice is read back.
pub get_phone_opted_out_updated_at-set :
    (p : String) (now : ℕ) (s : Store)
    → length s.opt_outs < opt_out_limit
    → str_eq (strip p) "" ≡ false
    → get_phone_opted_out_updated_at p (set_phone_opted_out p true now s) ≡ some now
unfolding get_phone_opted_out_updated_at set_phone_opted_out
get_phone_opted_out_updated_at-set p now s room named =
    let stamp : Option Stamp = some (isoformat now) in
    ground (
      arith,
      eq_iff (strip p) (strip p),
      trim_namespace_small place_of opt_out_limit (insert (strip p) stamp s.opt_outs),
      length-insert-le (strip p) stamp s.opt_outs,
      lookup-insert (strip p) (strip p) stamp s.opt_outs,
    )
