-- ===== src/Store/Trim.antt =====
-- `ConversationStateStore._trim_namespace` (app/infrastructure/state/conversation_state_store.py):
-- the oldest entries of a namespace leave when it holds more than its limit.
pub mod Removal
pub mod Laws
use chokobot.Common.{
  ℕ, ◌-◌, String, List, [], ◌∷◌, Dict, remove, keys, take, length, leb, if◌then◌else◌,
}

module _ {ℓ} {V : Type ℓ} where
  -- one step of the stable `items.sort(key=…)`
  pub sort_insert : (V → ℕ) → String × V → Dict V → Dict V
  sort_insert rank e [] = e ∷ []
  sort_insert rank e (f ∷ items) =
      if leb (rank e.1) (rank f.1) then e ∷ f ∷ items else f ∷ sort_insert rank e items

  pub sort_items : (V → ℕ) → Dict V → Dict V
  unfolding sort_insert
  sort_items rank [] = []
  sort_items rank (e ∷ items) = sort_insert rank e (sort_items rank items)

  -- `for key, _ in …: state_map.pop(key, None)`
  unfoldable pub remove_all : List String → Dict V → Dict V
  remove_all [] d = d
  remove_all (k ∷ ks) d = remove_all ks (remove k d)

  -- `limit` is never 0 where the source calls this, so `items[:-limit]` is `items[: len - limit]`.
  unfoldable pub trim_namespace : (V → ℕ) → ℕ → Dict V → Dict V
  unfolding sort_items remove_all remove
  trim_namespace rank limit d =
      if leb (length d) limit
      then d
      else remove_all (keys (take (length d - limit) (sort_items rank d))) d
