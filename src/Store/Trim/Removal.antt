-- ===== src/Store/Trim/Removal.antt =====
-- Popping keys from a namespace: rearrangements, absent keys, and the keys of its front part.
use mathlib.Core.List.{Mem, Perm, Permᴰ, Nodup, Nodup-cons, mem-cons}
use mathlib.Core.List.Permᴰ
use mathlib.Core.Logic.{∥∥₁_map, ∥∥₁_elim}
use mathlib.Core.Logic.Or
use native.Mathlib.Nat.{ℕ_set}
use mathlib.Core.Bool.{Bool}
use chokobot.Common.{
  suc, String, ◌≡◌, refl, sym, ap, ◌∙◌, true, false, inl, inr, List, [], ◌∷◌, ◌++◌, arith, Dict,
  remove, keys, length, str_eq, eq_iff, eq_refl, Bool-cases,
}
use chokobot.Store.Trim.{remove_all}

module _ {ℓ} {V : Type ℓ} where
  length-permᴰ : {xs ys : Dict V} → Permᴰ xs ys → length xs ≡ length ys
  length-permᴰ Permᴰ.nil = refl
  length-permᴰ (Permᴰ.cons _ p) = ap suc (length-permᴰ p)
  length-permᴰ (Permᴰ.swap _ _) = refl
  length-permᴰ (Permᴰ.trans p q) = length-permᴰ p ∙ length-permᴰ q

  pub length-perm : {xs ys : Dict V} → Perm xs ys → length xs ≡ length ys
  length-perm p = ∥∥₁_elim p (ℕ_set _ _) length-permᴰ

  -- One step of `remove`, which treats every entry alike and so respects rearrangement.
  keep_unless : Bool → String × V → Dict V → Dict V
  keep_unless true e d = d
  keep_unless false e d = e ∷ d

  remove-cons :
      (k : String) (e : String × V) (d : Dict V)
      → remove k (e ∷ d) ≡ keep_unless (str_eq e.0 k) e (remove k d)
  unfolding remove keep_unless
  remove-cons k (j, v) d = ground arith

  keep_unless-perm :
      (b : Bool) {e f : String × V} {xs ys : Dict V}
      → e ≡ f
      → Permᴰ xs ys
      → Permᴰ (keep_unless b e xs) (keep_unless b f ys)
  unfolding keep_unless
  keep_unless-perm true q p = p
  keep_unless-perm false q p = Permᴰ.cons q p

  keep_unless-swap :
      (b c : Bool) (e f : String × V) (xs : Dict V)
      → Permᴰ (keep_unless b e (keep_unless c f xs)) (keep_unless c f (keep_unless b e xs))
  unfolding keep_unless
  keep_unless-swap true c e f xs = Permᴰ.refl _
  keep_unless-swap false true e f xs = Permᴰ.refl _
  keep_unless-swap false false e f xs = Permᴰ.swap refl refl

  remove-permᴰ : (k : String) {xs ys : Dict V} → Permᴰ xs ys → Permᴰ (remove k xs) (remove k ys)
  remove-permᴰ k Permᴰ.nil = Permᴰ.refl _
  remove-permᴰ k (Permᴰ.cons {a = a} {b = b} {l₁ = l} {l₂ = m} q p) =
      rw (remove-cons k a l, remove-cons k b m, q) (keep_unless-perm _ refl (remove-permᴰ k p))
  remove-permᴰ k (Permᴰ.swap {a = a} {b = b} {a' = c} {b' = d} {l = l} q r) =
      rw
        (
          remove-cons k a (b ∷ l),
          remove-cons k b l,
          remove-cons k c (d ∷ l),
          remove-cons k d l,
          q,
          r,
        )
        (keep_unless-swap _ _ d c (remove k l))
  remove-permᴰ k (Permᴰ.trans p q) = Permᴰ.trans (remove-permᴰ k p) (remove-permᴰ k q)

  pub remove_all-perm :
      (ks : List String) {xs ys : Dict V} → Perm xs ys → Perm (remove_all ks xs) (remove_all ks ys)
  unfolding remove_all
  remove_all-perm [] p = p
  remove_all-perm (k ∷ ks) p = remove_all-perm ks (∥∥₁_map p (remove-permᴰ k))

  remove_absent : (k : String) (d : Dict V) → ¬ Mem k (keys d) → remove k d ≡ d
  unfolding keep_unless
  remove_absent k [] h = unfold remove in refl
  remove_absent k (e ∷ d) h = elim (Bool-cases (str_eq e.0 k)) [
    | inl same ↦ absurd (h (mem-cons.1 (Or.inl (sym ((eq_iff e.0 k).0 same)))))
    | inr differ ↦
        rw (remove-cons k e d, differ, remove_absent k d (λ m. h (mem-cons.1 (Or.inr m))))
  ]

  remove_front : (e : String × V) (d : Dict V) → ¬ Mem e.0 (keys d) → remove e.0 (e ∷ d) ≡ d
  unfolding keep_unless
  remove_front e d h = rw (remove-cons e.0 e d, eq_refl e.0) (remove_absent e.0 d h)

  -- Popping the keys of the front part of a dict with distinct keys leaves the rest.
  pub remove_all-append :
      (xs ys : Dict V) → Nodup (keys (xs ++ ys)) → remove_all (keys xs) (xs ++ ys) ≡ ys
  unfolding remove_all
  remove_all-append [] ys h = refl
  remove_all-append (e ∷ xs) ys h =
      ap (remove_all (keys xs)) (remove_front e (xs ++ ys) (Nodup-cons.0 h).0)
      ∙ remove_all-append xs ys (Nodup-cons.0 h).1
