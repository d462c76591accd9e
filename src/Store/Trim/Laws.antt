-- ===== src/Store/Trim/Laws.antt =====
-- What `_trim_namespace` keeps: the newest entries, as many as the limit allows.
use mathlib.Core.List.{Perm, Permᴰ, Nodup}
use mathlib.Core.List.Perm
use mathlib.Core.Logic.{∥∥₁_elim}
use mathlib.Core.HLevel.{×_prop}
use mathlib.Core.Path.{subst}
use native.Mathlib.Bridge.{le_prop}
use chokobot.Common.{
  ℕ, ◌-◌, ◌≤◌, min, String, ◌≡◌, sym, ap, ◌∙◌, inl, inr, List, [], ◌∷◌, ◌++◌, arith, Dict, keys,
  take, drop, length, leb, Bool-cases, length-drop, take-append-drop, leb→le,
}
use chokobot.Store.Trim.Removal.{length-perm, remove_all-perm, remove_all-append}
use chokobot.Store.Trim.{sort_insert, sort_items, remove_all, trim_namespace}

abbrev pub All {ℓ κ} : {A : Type ℓ} → (A → Type κ) → List A → Type κ
All P [] = Unit
All P (x ∷ xs) = P x × All P xs

-- `kept` is a part of `d` of the right size, and what was dropped ranks no higher than what stays.
pub record KeepsNewest {ℓ} {V : Type ℓ} (rank : V → ℕ) (limit : ℕ) (d kept : Dict V) : Type ℓ where
  pub dropped : Dict V
  pub rearranged : Perm (dropped ++ kept) d
  pub size : length kept ≡ min limit (length d)
  pub older : All (λ x. All (λ y. rank x.1 ≤ rank y.1) kept) dropped

module _ {ℓ κ} {A : Type ℓ} (P : A → Type κ) where
  All-append : (xs ys : List A) → All P (xs ++ ys) → All P xs × All P ys
  All-append [] ys h = (tt, h)
  All-append (x ∷ xs) ys h = let (a, b) = All-append xs ys h.1 in ((h.0, a), b)

module _ {ℓ} {V : Type ℓ} (rank : V → ℕ) where
  sort_insert-perm : (e : String × V) (d : Dict V) → Perm (sort_insert rank e d) (e ∷ d)
  unfolding sort_insert
  sort_insert-perm e [] = Perm.refl _
  sort_insert-perm e (f ∷ d) = elim (Bool-cases (leb (rank e.1) (rank f.1))) [
    | inl first ↦ rw first (Perm.refl _)
    | inr later ↦ rw later (Perm.trans (Perm.cons f (sort_insert-perm e d)) (Perm.swap e f d))
  ]

  pub sort_items-perm : (d : Dict V) → Perm (sort_items rank d) d
  unfolding sort_items
  sort_items-perm [] = Perm.refl _
  sort_items-perm (e ∷ d) = Perm.trans (sort_insert-perm e _) (Perm.cons e (sort_items-perm d))

  abbrev IsSorted : Dict V → Type 0
  IsSorted [] = Unit
  IsSorted (e ∷ d) = All (λ f. rank e.1 ≤ rank f.1) d × IsSorted d

  All-le_trans :
      {m n : ℕ} (d : Dict V) → m ≤ n → All (λ f. n ≤ rank f.1) d → All (λ f. m ≤ rank f.1) d
  All-le_trans [] h a = tt
  All-le_trans (e ∷ d) h a = (omega arith, All-le_trans d h a.1)

  All-sort_insert :
      {n : ℕ} (e : String × V) (d : Dict V)
      → n ≤ rank e.1
      → All (λ f. n ≤ rank f.1) d
      → All (λ f. n ≤ rank f.1) (sort_insert rank e d)
  unfolding sort_insert
  All-sort_insert e [] h a = (h, tt)
  All-sort_insert e (f ∷ d) h a = elim (Bool-cases (leb (rank e.1) (rank f.1))) [
    | inl first ↦ rw first (h, a)
    | inr later ↦ rw later (a.0, All-sort_insert e d h a.1)
  ]

  sort_insert-IsSorted :
      (e : String × V) (d : Dict V) → IsSorted d → IsSorted (sort_insert rank e d)
  unfolding sort_insert
  sort_insert-IsSorted e [] h = (tt, tt)
  sort_insert-IsSorted e (f ∷ d) h = elim (Bool-cases (leb (rank e.1) (rank f.1))) [
    | inl first ↦ let below = leb→le _ _ first in rw first ((below, All-le_trans d below h.0), h)
    | inr later ↦ rw later (All-sort_insert e d (ground arith) h.0, sort_insert-IsSorted e d h.1)
  ]

  sort_items-IsSorted : (d : Dict V) → IsSorted (sort_items rank d)
  unfolding sort_items
  sort_items-IsSorted [] = tt
  sort_items-IsSorted (e ∷ d) = sort_insert-IsSorted e _ (sort_items-IsSorted d)

  -- Cut anywhere, a sorted list has its lower part first.
  IsSorted-append :
      (xs ys : Dict V) → IsSorted (xs ++ ys) → All (λ x. All (λ y. rank x.1 ≤ rank y.1) ys) xs
  IsSorted-append [] ys h = tt
  IsSorted-append (e ∷ xs) ys h =
      ((All-append (λ f. rank e.1 ≤ rank f.1) xs ys h.0).1, IsSorted-append xs ys h.1)

module _ {ℓ} {V : Type ℓ} (rank : V → ℕ) where
  -- A bound on every entry does not depend on the order of the entries.
  All-permᴰ :
      (n : ℕ) {xs ys : Dict V}
      → Permᴰ xs ys
      → All (λ f. n ≤ rank f.1) xs
      → All (λ f. n ≤ rank f.1) ys
  All-permᴰ n Permᴰ.nil h = tt
  All-permᴰ n (Permᴰ.cons q p) h = (subst (λ e. n ≤ rank e.1) q h.0, All-permᴰ n p h.1)
  All-permᴰ n (Permᴰ.swap q r) h =
      (subst (λ e. n ≤ rank e.1) r h.1.0, (subst (λ e. n ≤ rank e.1) q h.0, h.1.1))
  All-permᴰ n (Permᴰ.trans p q) h = All-permᴰ n q (All-permᴰ n p h)

  All-IsProp : (n : ℕ) (xs : Dict V) → IsProp (All (λ f. n ≤ rank f.1) xs)
  All-IsProp n [] = hlevel
  All-IsProp n (x ∷ xs) = ×_prop le_prop (All-IsProp n xs)

  All-perm :
      (n : ℕ) {xs ys : Dict V}
      → Perm xs ys
      → All (λ f. n ≤ rank f.1) xs
      → All (λ f. n ≤ rank f.1) ys
  All-perm n {ys = ys} p h = ∥∥₁_elim p (All-IsProp n ys) (λ q. All-permᴰ n q h)

  older-perm :
      (ds : Dict V) {xs ys : Dict V}
      → Perm xs ys
      → All (λ x. All (λ y. rank x.1 ≤ rank y.1) xs) ds
      → All (λ x. All (λ y. rank x.1 ≤ rank y.1) ys) ds
  older-perm [] p h = tt
  older-perm (e ∷ ds) p h = (All-perm (rank e.1) p h.0, older-perm ds p h.1)

  -- What is left after the keys of the front of a rearrangement are popped.
  remove_all-take :
      (n : ℕ) (d s : Dict V)
      → Nodup (keys d)
      → Perm s d
      → Perm (drop n s) (remove_all (keys (take n s)) d)
  remove_all-take n d s h p =
      let split = take-append-drop n s in
      let distinct = Perm.nodup (Perm.map (λ e. e.0) (Perm.symm p)) h in
      let rest =
        remove_all-append (take n s) (drop n s)
          (subst (λ t. Nodup (keys t)) (sym split) distinct) in
      let moved = remove_all-perm (keys (take n s)) p in
      subst (λ t. Perm t (remove_all (keys (take n s)) d))
        (ap (remove_all (keys (take n s))) (sym split) ∙ rest) moved

  trim_cut :
      (limit : ℕ) (d : Dict V)
      → Nodup (keys d)
      → limit ≤ length d
      → (s : Dict V) → Perm s d
      → All
          (λ x. All (λ y. rank x.1 ≤ rank y.1) (drop (length d - limit) s))
          (take (length d - limit) s)
      → KeepsNewest rank limit d (remove_all (keys (take (length d - limit) s)) d)
  trim_cut limit d h le s p o =
      let n = length d - limit in
      let kept = remove_all-take n d s h p in
      record {
        dropped = take n s;
        rearranged =
            Perm.trans (Perm.append_left (take n s) (Perm.symm kept))
              (subst (λ t. Perm t d) (sym (take-append-drop n s)) p);
        size = omega (arith, length-perm kept, length-perm p, length-drop (length d - limit) s);
        older = older-perm (take n s) kept o;
      }

  -- Over distinct keys `_trim_namespace` keeps exactly the `limit` newest entries (all of them when
  -- there are no more): what it keeps and what it drops make up the namespace, and nothing dropped
  -- has a later sort key than anything kept.
  pub trim_namespace-KeepsNewest :
      (limit : ℕ) (d : Dict V)
      → Nodup (keys d)
      → KeepsNewest rank limit d (trim_namespace rank limit d)
  unfolding trim_namespace
  trim_namespace-KeepsNewest limit d h = elim (Bool-cases (leb (length d) limit)) [
    | inl small ↦ rw small (record {
      dropped = [];
      rearranged = Perm.refl d;
      size = omega (arith, leb→le _ _ small);
      older = tt;
    })
    | inr large ↦ rw large (
        trim_cut limit d h (ground arith) (sort_items rank d) (sort_items-perm rank d) (
          IsSorted-append rank (take (length d - limit) (sort_items rank d))
            (drop (length d - limit) (sort_items rank d))
            (subst (IsSorted rank) (sym (take-append-drop (length d - limit) (sort_items rank d)))
              (sort_items-IsSorted rank d))))
  ]
