-- ===== src/Processes.antt =====
-- The customer processes: one row for each phone and process type
-- (app/infrastructure/repositories/sqlite_customer_process_repository.py). The type of the draft
-- payload, which the source stores as JSON, is a parameter.
pub mod Laws
pub mod Active
use chokobot.Common.{
  ℕ, ◌+◌, ◌*◌, ◌/◌, String, Bool, true, false, ◌&&◌, Option, none, some, List, [], ◌∷◌, str_eq,
  if◌then◌else◌,
}

pub record Process {ℓ} (P : Type ℓ) : Type ℓ where
  pub id : ℕ
  pub phone : String
  pub customer_id : Option ℕ
  pub process_type : String
  pub stage : String
  pub status : String
  pub source : Option String
  pub draft_payload : P
  pub order_id : Option ℕ
  -- `CURRENT_TIMESTAMP`, which is in UTC and has whole seconds
  pub created_at : ℕ
  pub updated_at : ℕ

-- The rows of `customer_processes`, with the ids that stand in `clientes` and `encomendas`.
pub record Repository {ℓ} (P : Type ℓ) : Type ℓ where
  pub rows : List (Process P)
  pub next_id : ℕ
  pub is_customer : ℕ → Bool
  pub is_order : ℕ → Bool

-- The arguments of `upsert_process`.
pub record Upsert {ℓ} (P : Type ℓ) : Type ℓ where
  pub phone : String
  pub customer_id : Option ℕ
  pub process_type : String
  pub stage : String
  pub status : String
  pub source : Option String
  pub draft_payload : P
  pub order_id : Option ℕ

-- SELECT 1 FROM … WHERE id = ?, and NULL where that finds nothing
unfoldable pub resolve_id : (ℕ → Bool) → Option ℕ → Option ℕ
resolve_id exists none = none
resolve_id exists (some id) = if exists id then some id else none

-- COALESCE(a, b)
abbrev pub coalesce {ℓ} : {A : Type ℓ} → Option A → Option A → Option A
coalesce none b = b
coalesce (some a) b = some a

-- CURRENT_TIMESTAMP at an instant in microseconds: the second that has begun
abbrev pub current_timestamp : ℕ → ℕ
current_timestamp now = now / 1000000 * 1000000

module _ {ℓ} {P : Type ℓ} where
  unfoldable pub is_at : String → String → Process P → Bool
  is_at phone process_type row = str_eq row.phone phone && str_eq row.process_type process_type

  unfoldable pub find_row : String → String → List (Process P) → Option (Process P)
  unfolding is_at
  find_row phone process_type [] = none
  find_row phone process_type (row ∷ rows) =
      if is_at phone process_type row then some row else find_row phone process_type rows

  -- SELECT … WHERE phone = ? AND process_type = ?
  unfoldable pub get_process : String → String → Repository P → Option (Process P)
  unfolding find_row
  get_process phone process_type r = find_row phone process_type r.rows

  -- the row that the INSERT makes
  unfoldable pub new_row : ℕ → (ℕ → Bool) → (ℕ → Bool) → Upsert P → ℕ → Process P
  unfolding resolve_id
  new_row id is_customer is_order u now = record {
    id = id;
    phone = u.phone;
    customer_id = resolve_id is_customer u.customer_id;
    process_type = u.process_type;
    stage = u.stage;
    status = u.status;
    source = u.source;
    draft_payload = u.draft_payload;
    order_id = resolve_id is_order u.order_id;
    created_at = current_timestamp now;
    updated_at = current_timestamp now;
  }

  -- ON CONFLICT(phone, process_type) DO UPDATE
  unfoldable pub merge_row : Process P → Process P → Process P
  merge_row old excluded = record old {
    customer_id = excluded.customer_id;
    stage = excluded.stage;
    status = excluded.status;
    source = coalesce excluded.source old.source;
    draft_payload = excluded.draft_payload;
    order_id = coalesce excluded.order_id old.order_id;
    updated_at = excluded.updated_at;
  }

  unfoldable pub upsert_rows : Process P → List (Process P) → List (Process P)
  unfolding merge_row is_at
  upsert_rows excluded [] = excluded ∷ []
  upsert_rows excluded (row ∷ rows) =
      if is_at excluded.phone excluded.process_type row
      then merge_row row excluded ∷ rows
      else row ∷ upsert_rows excluded rows

  unfoldable pub upsert_process : Upsert P → ℕ → Repository P → Repository P
  unfolding upsert_rows new_row
  upsert_process u now r = record r {
    rows = upsert_rows (new_row r.next_id r.is_customer r.is_order u now) r.rows;
    next_id = r.next_id + 1;
  }
