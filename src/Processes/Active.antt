-- ===== src/Processes/Active.antt =====
-- `list_active_processes` of app/infrastructure/repositories/sqlite_customer_process_repository.py: the
-- rows with the status active, the latest change first.
use chokobot.Processes.{Process, Repository}
use mathlib.Core.List.{Perm, perm_middle}
use mathlib.Core.List.Perm
use chokobot.Store.Trim.Laws.{All}
use chokobot.Common.{
  ◌≡◌, Bool, true, false, ◌&&◌, ◌||◌, List, [], ◌∷◌, str_eq, arith, leb, ltb, ◌==◌, if◌then◌else◌,
  Bool-cases, inl, inr, ◌<◌, ◌≤◌, ◌≢◌, ◌⊎◌, ◌++◌, eq_iff, sym, ◌∙◌,
}

false-true : false ≡ true → ⊥
false-true h = cc

module _ {ℓ} {P : Type ℓ} where
  -- ORDER BY updated_at DESC, id DESC
  unfoldable pub comes_first : Process P → Process P → Bool
  comes_first a b = ltb b.updated_at a.updated_at || (a.updated_at == b.updated_at && leb b.id a.id)

  -- WHERE status = 'active'
  unfoldable pub active_rows : List (Process P) → List (Process P)
  active_rows [] = []
  active_rows (row ∷ rows) =
      let rest = active_rows rows in if str_eq row.status "active" then row ∷ rest else rest

  unfoldable pub order_insert : Process P → List (Process P) → List (Process P)
  unfolding comes_first
  order_insert row [] = row ∷ []
  order_insert row (other ∷ rows) =
      let rest = order_insert row rows in
      if comes_first row other then row ∷ other ∷ rows else other ∷ rest

  unfoldable pub order_rows : List (Process P) → List (Process P)
  unfolding order_insert
  order_rows [] = []
  order_rows (row ∷ rows) = order_insert row (order_rows rows)

  unfoldable pub list_active_processes : Repository P → List (Process P)
  unfolding active_rows order_rows
  list_active_processes r = order_rows (active_rows r.rows)

  -- every row comes before those after it
  abbrev IsOrdered : List (Process P) → Type 0
  IsOrdered [] = Unit
  IsOrdered (row ∷ rows) = All (λ other. comes_first row other ≡ true) rows × IsOrdered rows

  order_insert-perm :
      (row : Process P) (rows : List (Process P)) → Perm (order_insert row rows) (row ∷ rows)
  unfolding order_insert
  order_insert-perm row [] = Perm.refl _
  order_insert-perm row (other ∷ rows) = elim (Bool-cases (comes_first row other)) [
    | inl first ↦ rw (order_insert, first) (Perm.refl _)
    | inr later ↦
        rw (order_insert, later)
          (Perm.trans (Perm.cons other (order_insert-perm row rows)) (Perm.swap row other rows))
  ]

  order_rows-perm : (rows : List (Process P)) → Perm (order_rows rows) rows
  unfolding order_rows
  order_rows-perm [] = Perm.refl _
  order_rows-perm (row ∷ rows) =
      Perm.trans (order_insert-perm row _) (Perm.cons row (order_rows-perm rows))

  comes_first_trans :
      (a b c : Process P) → comes_first a b ≡ true → comes_first b c ≡ true → comes_first a c ≡ true
  unfolding comes_first
  comes_first_trans a b c p q = ground arith

  comes_first_total : (a b : Process P) → comes_first a b ≡ false → comes_first b a ≡ true
  unfolding comes_first
  comes_first_total a b p = ground arith

  All-comes_first :
      (a b : Process P) (rows : List (Process P))
      → comes_first a b ≡ true
      → All (λ other. comes_first b other ≡ true) rows
      → All (λ other. comes_first a other ≡ true) rows
  All-comes_first a b [] p h = tt
  All-comes_first a b (row ∷ rows) p h =
      (comes_first_trans a b row p h.0, All-comes_first a b rows p h.1)

  All-order_insert :
      (a row : Process P) (rows : List (Process P))
      → comes_first a row ≡ true
      → All (λ other. comes_first a other ≡ true) rows
      → All (λ other. comes_first a other ≡ true) (order_insert row rows)
  unfolding order_insert
  All-order_insert a row [] p h = (p, tt)
  All-order_insert a row (other ∷ rows) p h = elim (Bool-cases (comes_first row other)) [
    | inl first ↦ rw (order_insert, first) (p, h)
    | inr later ↦ rw (order_insert, later) (h.0, All-order_insert a row rows p h.1)
  ]

  order_insert-IsOrdered :
      (row : Process P) (rows : List (Process P))
      → IsOrdered rows
      → IsOrdered (order_insert row rows)
  unfolding order_insert
  order_insert-IsOrdered row [] h = (tt, tt)
  order_insert-IsOrdered row (other ∷ rows) h = elim (Bool-cases (comes_first row other)) [
    | inl first ↦ rw (order_insert, first) ((first, All-comes_first row other rows first h.0), h)
    | inr later ↦
        rw (order_insert, later)
          (
            All-order_insert other row rows (comes_first_total row other later) h.0,
            order_insert-IsOrdered row rows h.1,
          )
  ]

  order_rows-IsOrdered : (rows : List (Process P)) → IsOrdered (order_rows rows)
  unfolding order_rows
  order_rows-IsOrdered [] = tt
  order_rows-IsOrdered (row ∷ rows) = order_insert-IsOrdered row _ (order_rows-IsOrdered rows)

  -- a changed later than b, or in the same second and with an id that is not smaller
  abbrev pub IsLater : Process P → Process P → Type 0
  IsLater a b = (b.updated_at < a.updated_at) ⊎ ((a.updated_at ≡ b.updated_at) × (b.id ≤ a.id))

  abbrev pub LatestFirst : List (Process P) → Type 0
  LatestFirst [] = Unit
  LatestFirst (row ∷ rows) = All (IsLater row) rows × LatestFirst rows

  -- What a list of the active rows of a table is: with some rows that are not active, it is the whole
  -- table, as often as each row stands there, and the latest change stands first.
  pub record ListsActive (rows listed : List (Process P)) : Type ℓ where
    pub others : List (Process P)
    pub whole : Perm rows (others ++ listed)
    pub are_active : All (λ p. p.status ≡ "active") listed
    pub are_not : All (λ p. p.status ≢ "active") others
    pub latest_first : LatestFirst listed

  comes_first-IsLater : (a b : Process P) → comes_first a b ≡ true → IsLater a b
  unfolding comes_first
  comes_first-IsLater a b h = ground arith

  All-IsLater :
      (row : Process P) (rows : List (Process P))
      → All (λ other. comes_first row other ≡ true) rows
      → All (IsLater row) rows
  All-IsLater row [] h = tt
  All-IsLater row (other ∷ rows) h = (comes_first-IsLater row other h.0, All-IsLater row rows h.1)

  IsOrdered-LatestFirst : (rows : List (Process P)) → IsOrdered rows → LatestFirst rows
  IsOrdered-LatestFirst [] h = tt
  IsOrdered-LatestFirst (row ∷ rows) h = (All-IsLater row rows h.0, IsOrdered-LatestFirst rows h.1)

  All-order_insert-active :
      (row : Process P) (rows : List (Process P))
      → row.status ≡ "active"
      → All (λ p. p.status ≡ "active") rows
      → All (λ p. p.status ≡ "active") (order_insert row rows)
  unfolding order_insert
  All-order_insert-active row [] p h = (p, tt)
  All-order_insert-active row (other ∷ rows) p h = elim (Bool-cases (comes_first row other)) [
    | inl first ↦ rw (order_insert, first) (p, h)
    | inr later ↦ rw (order_insert, later) (h.0, All-order_insert-active row rows p h.1)
  ]

  All-order_rows :
      (rows : List (Process P))
      → All (λ p. p.status ≡ "active") rows
      → All (λ p. p.status ≡ "active") (order_rows rows)
  unfolding order_rows
  All-order_rows [] h = tt
  All-order_rows (row ∷ rows) h =
      All-order_insert-active row (order_rows rows) h.0 (All-order_rows rows h.1)

  -- the rows that are not active, beside those that are
  active_rows-splits :
      (rows : List (Process P))
      → (others : List (Process P)) × Perm rows (others ++ active_rows rows)
        × All (λ p. p.status ≡ "active") (active_rows rows)
        × All (λ p. p.status ≢ "active") others
  unfolding active_rows
  active_rows-splits [] = ([], Perm.refl _, tt, tt)
  active_rows-splits (row ∷ rows) =
      let (others, whole, kept, left) = active_rows-splits rows in
      elim (Bool-cases (str_eq row.status "active")) [
        | inl e ↦
            rw (active_rows, e)
              (
                others,
                Perm.trans (Perm.cons row whole)
                    (Perm.symm (perm_middle others (active_rows rows))),
                ((eq_iff row.status "active").0 e, kept),
                left,
              )
        | inr e ↦
            rw (active_rows, e)
              (
                row ∷ others,
                Perm.cons row whole,
                kept,
                (λ same. false-true (sym e ∙ (eq_iff row.status "active").1 same), left),
              )
      ]

  -- The list of the active processes has exactly the rows of the table whose status is "active", as often
  -- as they stand there, and of two of them the one that changed later stands first, and where both
  -- changed in the same second, the one with the greater id.
  pub list_active_processes-ListsActive :
      (r : Repository P) → ListsActive r.rows (list_active_processes r)
  unfolding list_active_processes
  list_active_processes-ListsActive r =
      let (others, whole, kept, left) = active_rows-splits r.rows in
      record {
        others = others;
        whole =
            Perm.trans whole
              (Perm.append_left others (Perm.symm (order_rows-perm (active_rows r.rows))));
        are_active = All-order_rows (active_rows r.rows) kept;
        are_not = left;
        latest_first = IsOrdered-LatestFirst _ (order_rows-IsOrdered (active_rows r.rows));
      }
