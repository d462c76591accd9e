-- ===== src/Tests/Runtime.antt =====
-- The runtime state: trims, limits, repeated messages, silence and threads.
use mathlib.Core.List.{Nodup, Nodup-nil}
use chokobot.Common
use chokobot.Common.{
  ℕ, ◌≡◌, refl, true, false, none, some, String, List, [], ◌∷◌, arith, Dict, lookup, insert, length,
  leb, strip, codes,
}
use chokobot.Store.{
  RecentMessage, isoformat, empty_store, recent_place, cliente, seconds,
  mark_processed_message_if_new, has_processed_message, is_phone_opted_out, set_phone_opted_out,
}
use chokobot.Store.Trim.{trim_namespace}
use chokobot.Store.Trim.Laws.{KeepsNewest, trim_namespace-KeepsNewest}
use chokobot.Store.Validity.{
  IsValid, Call, perform_all, perform_all-IsValid, empty_store-IsValid, sets_opt_out, marks_if_new,
  appends_message,
}
use chokobot.Store.Dedup.{mark_processed_message_if_new_once}
use chokobot.Store.OptOut.{is_phone_opted_out-set_phone_opted_out}
use chokobot.Store.Bounded.{insert-Nodup}

abbrev message_at : ℕ → RecentMessage
message_at t = record { texto = "oi"; hora = some (isoformat t) }

abbrev three_messages : Dict RecentMessage
three_messages = ("a", message_at 5) ∷ ("b", message_at 3) ∷ ("c", message_at 9) ∷ []

trim_run :
    trim_namespace recent_place 2 three_messages ≡ ("a", message_at 5) ∷ ("c", message_at 9) ∷ []
unfolding trim_namespace
trim_run = refl

three_messages-distinct : Nodup (Common.keys three_messages)
unfolding insert
three_messages-distinct =
    insert-Nodup "c" (message_at 9) (("a", message_at 5) ∷ ("b", message_at 3) ∷ []) (
      insert-Nodup "b" (message_at 3) (("a", message_at 5) ∷ [])
        (insert-Nodup "a" (message_at 5) [] Nodup-nil))

trim_namespace-KeepsNewest_example :
    KeepsNewest recent_place 2 three_messages (trim_namespace recent_place 2 three_messages)
trim_namespace-KeepsNewest_example =
    trim_namespace-KeepsNewest recent_place 2 three_messages three_messages-distinct

abbrev calls : List Call
calls =
    marks_if_new "m1" 1000 60
    ∷ appends_message "5516" cliente "Ana" "quero um bolo" 1000
    ∷ sets_opt_out "5516" true 2000
    ∷ []

perform_all-IsValid_example : IsValid (perform_all calls empty_store)
perform_all-IsValid_example = perform_all-IsValid calls empty_store-IsValid

mark_processed_message_if_new_once_example :
    (mark_processed_message_if_new "m1"
      (seconds 59)
      60
      (mark_processed_message_if_new "m1" (seconds 1) 60 empty_store).1).0
    ≡ false
unfolding mark_processed_message_if_new has_processed_message lookup
mark_processed_message_if_new_once_example =
    mark_processed_message_if_new_once "m1" (seconds 1) 60 (seconds 59) 60 empty_store
      (ground (arith, Common.eq_iff "m1" "")) (omega arith) refl

is_phone_opted_out-set_phone_opted_out_example :
    is_phone_opted_out " 5516" (set_phone_opted_out "5516 " true 7 empty_store) ≡ true
unfolding strip
is_phone_opted_out-set_phone_opted_out_example =
    is_phone_opted_out-set_phone_opted_out "5516 " " 5516" true 7 empty_store (omega arith)
