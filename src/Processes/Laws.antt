-- ===== src/Processes/Laws.antt =====
-- An upsert is a write at its phone and type, and nowhere else.
use chokobot.Common.{
  ℕ, String, ◌≡◌, ◌&&◌, Option, none, some, List, [], ◌∷◌, arith, str_eq, eq_iff, if◌then◌else◌,
}
use chokobot.Processes.{
  Process, Repository, Upsert, is_at, find_row, get_process, new_row, merge_row, upsert_rows,
  upsert_process,
}

module _ {ℓ} {P : Type ℓ} where
  -- what an upsert leaves at its own key
  abbrev pub written : Option (Process P) → Process P → Process P
  written none excluded = excluded
  written (some old) excluded = merge_row old excluded

  find_row-upsert_rows :
      (phone kind : String) (e : Process P) (rows : List (Process P))
      → find_row phone kind (upsert_rows e rows) ≡ (
          if str_eq e.phone phone && str_eq e.process_type kind
          then some (written (find_row phone kind rows) e)
          else find_row phone kind rows)
  unfolding find_row upsert_rows is_at
  find_row-upsert_rows phone kind e [] = ground arith
  find_row-upsert_rows phone kind e (r ∷ rows) = ground (
    arith,
    find_row-upsert_rows phone kind e rows,
    eq_iff r.phone phone,
    eq_iff r.process_type kind,
    eq_iff e.phone phone,
    eq_iff e.process_type kind,
    eq_iff r.phone e.phone,
    eq_iff r.process_type e.process_type,
  )

  -- After an upsert, the row at its phone and type is the new one, or the old one merged with it
  -- (which keeps its id and its creation, and the source and the order where none is given). The
  -- row at any other phone or type is what it was.
  pub get_process-upsert_process :
      (phone kind : String) (u : Upsert P) (now : ℕ) (r : Repository P)
      → get_process phone kind (upsert_process u now r) ≡ (
          if str_eq u.phone phone && str_eq u.process_type kind
          then some (
              written (get_process phone kind r) (new_row r.next_id r.is_customer r.is_order u now))
          else get_process phone kind r)
  unfolding get_process upsert_process
  get_process-upsert_process phone kind u now r =
      find_row-upsert_rows phone kind (new_row r.next_id r.is_customer r.is_order u now) r.rows
