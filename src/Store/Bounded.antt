-- ===== src/Store/Bounded.antt =====
-- Namespaces with distinct keys and at most so many entries, under the operations on a `dict`.
use mathlib.Core.List.{Mem, Nodup, Nodup-cons, Nodup-nil, mem-cons, not-mem-nil}
use mathlib.Core.Logic.Or
use mathlib.Core.Bool.{false≢true}
use mathlib.Core.HLevel.{⊥_prop}
use chokobot.Common.{
  ℕ, ◌-◌, ◌≤◌, take, String, ◌≢◌, sym, ◌∙◌, inl, inr, List, [], ◌∷◌, arith, ◌≡◌, some, lookup,
  lookup-remove, Dict, insert, remove, keys, length, leb, str_eq, eq_iff, Bool-cases,
  length-remove-le,
}
use chokobot.Store.Trim.{trim_namespace, remove_all, sort_items}
use chokobot.Store.Trim.Laws.{trim_namespace-KeepsNewest}

pub record IsBounded {ℓ} {V : Type ℓ} (limit : ℕ) (d : Dict V) : Type ℓ where
  pub distinct : Nodup (keys d)
  pub within : length d ≤ limit

not-mem-cons {ℓ} : {A : Type ℓ} {a b : A} {l : List A} → a ≢ b → ¬ Mem a l → ¬ Mem a (b ∷ l)
not-mem-cons ne h m = Or.elim ⊥_prop (mem-cons.0 m) ne h

not-mem-head {ℓ} : {A : Type ℓ} {a b : A} {l : List A} → ¬ Mem a (b ∷ l) → a ≢ b
not-mem-head h e = h (mem-cons.1 (Or.inl e))

not-mem-tail {ℓ} : {A : Type ℓ} {a b : A} {l : List A} → ¬ Mem a (b ∷ l) → ¬ Mem a l
not-mem-tail h m = h (mem-cons.1 (Or.inr m))

module _ {ℓ} {V : Type ℓ} where
  not-mem-insert :
      (i k : String) (v : V) (d : Dict V) → i ≢ k → ¬ Mem i (keys d) → ¬ Mem i (keys (insert k v d))
  unfolding insert
  not-mem-insert i k v [] ne h = not-mem-cons ne h
  not-mem-insert i k v ((j, w) ∷ d) ne h = elim (Bool-cases (str_eq j k)) [
    | inl same ↦ rw same h
    | inr differ ↦
        rw differ (not-mem-cons (not-mem-head h) (not-mem-insert i k v d ne (not-mem-tail h)))
  ]

  not-mem-remove : (i k : String) (d : Dict V) → ¬ Mem i (keys d) → ¬ Mem i (keys (remove k d))
  unfolding remove
  not-mem-remove i k [] h = h
  not-mem-remove i k ((j, w) ∷ d) h = elim (Bool-cases (str_eq j k)) [
    | inl same ↦ rw same (not-mem-remove i k d (not-mem-tail h))
    | inr differ ↦ rw differ (not-mem-cons (not-mem-head h) (not-mem-remove i k d (not-mem-tail h)))
  ]

  pub insert-Nodup :
      (k : String) (v : V) (d : Dict V) → Nodup (keys d) → Nodup (keys (insert k v d))
  unfolding insert
  insert-Nodup k v [] h = Nodup-cons.1 (not-mem-nil, Nodup-nil)
  insert-Nodup k v ((j, w) ∷ d) h = elim (Bool-cases (str_eq j k)) [
    | inl same ↦ rw same h
    | inr differ ↦ rw differ (
        Nodup-cons.1 (
          not-mem-insert j k v d (λ e. false≢true (sym differ ∙ (eq_iff j k).1 e))
              (Nodup-cons.0 h).0,
          insert-Nodup k v d (Nodup-cons.0 h).1,
        ))
  ]

  pub remove-Nodup : (k : String) (d : Dict V) → Nodup (keys d) → Nodup (keys (remove k d))
  unfolding remove
  remove-Nodup k [] h = h
  remove-Nodup k ((j, w) ∷ d) h = elim (Bool-cases (str_eq j k)) [
    | inl same ↦ rw same (remove-Nodup k d (Nodup-cons.0 h).1)
    | inr differ ↦ rw differ (
        Nodup-cons.1 (not-mem-remove j k d (Nodup-cons.0 h).0, remove-Nodup k d (Nodup-cons.0 h).1))
  ]

  remove_all-Nodup :
      (ks : List String) (d : Dict V) → Nodup (keys d) → Nodup (keys (remove_all ks d))
  unfolding remove_all
  remove_all-Nodup [] d h = h
  remove_all-Nodup (k ∷ ks) d h = remove_all-Nodup ks (remove k d) (remove-Nodup k d h)

  trim_namespace-Nodup :
      (rank : V → ℕ) (limit : ℕ) (d : Dict V)
      → Nodup (keys d)
      → Nodup (keys (trim_namespace rank limit d))
  unfolding trim_namespace
  trim_namespace-Nodup rank limit d h = elim (Bool-cases (leb (length d) limit)) [
    | inl small ↦ rw small h
    | inr large ↦
        rw large (remove_all-Nodup (keys (take (length d - limit) (sort_items rank d))) d h)
  ]

  -- A write and the trim that follows it.
  pub trim-insert-IsBounded :
      (rank : V → ℕ) (limit : ℕ) (k : String) (v : V) {d : Dict V}
      → IsBounded limit d
      → IsBounded limit (trim_namespace rank limit (insert k v d))
  trim-insert-IsBounded rank limit k v {d} b =
      let distinct = insert-Nodup k v d b.distinct in
      record {
        distinct = trim_namespace-Nodup rank limit (insert k v d) distinct;
        within =
            omega (arith, (trim_namespace-KeepsNewest rank limit (insert k v d) distinct).size);
      }

  pub remove-IsBounded :
      (limit : ℕ) (k : String) {d : Dict V} → IsBounded limit d → IsBounded limit (remove k d)
  remove-IsBounded limit k {d} b = record {
    distinct = remove-Nodup k d b.distinct;
    within = omega (arith, length-remove-le k d, b.within);
  }

  pub nil-IsBounded : (limit : ℕ) → IsBounded {V = V} limit []
  nil-IsBounded limit = record { distinct = Nodup-nil; within = omega arith }

  lookup-remove_all :
      (j : String) (ks : List String) (d : Dict V) (v : V)
      → lookup j (remove_all ks d) ≡ some v
      → lookup j d ≡ some v
  unfolding remove_all
  lookup-remove_all j [] d v e = e
  lookup-remove_all j (k ∷ ks) d v e =
      ground (arith, lookup-remove_all j ks (remove k d) v e, lookup-remove k j d)

  -- A trim only takes entries away.
  pub lookup-trim_namespace :
      (rank : V → ℕ) (limit : ℕ) (d : Dict V) (j : String) (v : V)
      → lookup j (trim_namespace rank limit d) ≡ some v
      → lookup j d ≡ some v
  unfolding trim_namespace
  lookup-trim_namespace rank limit d j v = elim (Bool-cases (leb (length d) limit)) [
    | inl small ↦ rw small (λ e. e)
    | inr large ↦
        rw large (lookup-remove_all j (keys (take (length d - limit) (sort_items rank d))) d v)
  ]
