-- ===== src/Panel/Selection.antt =====
-- Which process the panel shows for a phone.
use mathlib.Core.Path.{subst}
use chokobot.Processes.{Process, Repository}
use chokobot.Processes.Active.{list_active_processes}
use chokobot.Panel.{Key, less, sort_key, replaces, select, active_processes_by_phone}
use chokobot.Common.{
  Option-cases, sym, ap, ◌∙◌, String, ◌≡◌, Bool, true, false, not, Option, none, some, List, [],
  ◌∷◌, Dict, lookup, insert, lookup-insert, str_eq, eq_iff, eq_refl, arith, if◌then◌else◌, ◌⊎◌, inl,
  inr, Bool-cases,
}

-- a process of a list
pub data IsAmong {P : Type 0} (p : Process P) : List (Process P) → Type 0 where
  first : {ps : List (Process P)} → IsAmong p (p ∷ ps)
  later : {q : Process P} {ps : List (Process P)} → IsAmong p ps → IsAmong p (q ∷ ps)

module _ {P : Type 0} where
  abbrev process_or : Process P → Option (Process P) → Process P
  process_or p none = p
  process_or p (some q) = q

  -- an entry whose key is not above a key
  abbrev pub is_within : Option (Process P) → Key → Bool
  is_within none key = false
  is_within (some p) key = not (less key (sort_key p))

  -- the dictionary after one process
  abbrev after : Dict (Process P) → Process P → Dict (Process P)
  after selected p =
      if replaces p (lookup p.phone selected) then insert p.phone p selected else selected

  within-after :
      (phone : String) (selected : Dict (Process P)) (p : Process P) (key : Key)
      → is_within (lookup phone selected) key ≡ true
      → is_within (lookup phone (after selected p)) key ≡ true
  unfolding replaces
  within-after phone selected p key h =
      ground (arith, lookup-insert p.phone phone p selected, eq_iff p.phone phone)

  own-after :
      (selected : Dict (Process P)) (p : Process P)
      → is_within (lookup p.phone (after selected p)) (sort_key p) ≡ true
  unfolding replaces
  own-after selected p = ground (arith, lookup-insert p.phone p.phone p selected, eq_refl p.phone)

  within-select :
      (phone : String) (selected : Dict (Process P)) (ps : List (Process P)) (key : Key)
      → is_within (lookup phone selected) key ≡ true
      → is_within (lookup phone (select selected ps)) key ≡ true
  unfolding select
  within-select phone selected [] key h = h
  within-select phone selected (p ∷ ps) key h =
      within-select phone (after selected p) ps key (within-after phone selected p key h)

  least-select :
      (selected : Dict (Process P)) (ps : List (Process P)) (q : Process P)
      → IsAmong q ps
      → is_within (lookup q.phone (select selected ps)) (sort_key q) ≡ true
  unfolding select
  least-select selected [] q m = elim m [ ]
  least-select selected (_ ∷ ps) q first =
      within-select q.phone (after selected q) ps (sort_key q) (own-after selected q)
  least-select selected (p ∷ ps) q (later m) = least-select (after selected p) ps q m

  inserted-cases :
      (phone : String) (selected : Dict (Process P)) (q p : Process P)
      → lookup phone (insert q.phone q selected) ≡ some p
      → ((q ≡ p) × (p.phone ≡ phone)) ⊎ (lookup phone selected ≡ some p)
  inserted-cases phone selected q p h =
      let chosen = sym (lookup-insert q.phone phone q selected) ∙ h in
      elim (Bool-cases (str_eq q.phone phone)) [
        | inl same ↦
            let found =
              subst (λ b. (if b then some q else lookup phone selected) ≡ some p) same chosen in
            let is_q : q ≡ p = ap (process_or q) found in
            inl (is_q, sym (ap (λ x. x.phone) is_q) ∙ (eq_iff q.phone phone).0 same)
        | inr other ↦
            inr (subst (λ b. (if b then some q else lookup phone selected) ≡ some p) other chosen)
      ]

  nothing-found : (phone : String) (p : Process P) → lookup phone [] ≡ some p → ⊥
  unfolding lookup
  nothing-found phone p h = cc

  after-cases :
      (phone : String) (selected : Dict (Process P)) (q p : Process P)
      → lookup phone (after selected q) ≡ some p
      → ((q ≡ p) × (p.phone ≡ phone)) ⊎ (lookup phone selected ≡ some p)
  after-cases phone selected q p h = elim (Bool-cases (replaces q (lookup q.phone selected))) [
    | inl new ↦
        let inserted =
          subst (λ b. lookup phone (if b then insert q.phone q selected else selected) ≡ some p) new
            h in
        inserted-cases phone selected q p inserted
    | inr old ↦ inr (
        subst (λ b. lookup phone (if b then insert q.phone q selected else selected) ≡ some p) old
          h)
  ]

  from-select :
      (phone : String) (selected : Dict (Process P)) (ps : List (Process P)) (p : Process P)
      → lookup phone (select selected ps) ≡ some p
      → (IsAmong p ps × (p.phone ≡ phone)) ⊎ (lookup phone selected ≡ some p)
  unfolding select
  from-select phone selected [] p h = inr h
  from-select phone selected (q ∷ ps) p h = elim (from-select phone (after selected q) ps p h) [
    | inl (m, same) ↦ inl (later m, same)
    | inr e ↦ elim (after-cases phone selected q p e) [
      | inl (is_q, same) ↦ inl (subst (λ x. IsAmong x (q ∷ ps)) is_q first, same)
      | inr before ↦ inr before
    ]
  ]

  -- For an active process, the panel shows one for its phone: an active process of that phone, which is
  -- not after it in the order of the priority of the stage and then of the time of the last change.
  pub active_processes_by_phone-IsAmong :
      (r : Repository P) (q : Process P)
      → IsAmong q (list_active_processes r)
      → (p : Process P) × ((lookup q.phone (active_processes_by_phone r) ≡ some p)
          × (IsAmong p (list_active_processes r)
              × ((p.phone ≡ q.phone) × (less (sort_key q) (sort_key p) ≡ false))))
  unfolding active_processes_by_phone
  active_processes_by_phone-IsAmong r q m =
      let active = list_active_processes r in
      let within = least-select [] active q m in
      elim (Option-cases (lookup q.phone (select [] active))) [
        | inl missing ↦
            let bad : false ≡ true = subst (λ o. is_within o (sort_key q) ≡ true) missing within in
            ground (arith, bad)
        | inr (p, shown) ↦ elim (from-select q.phone [] active p shown) [
          | inl (among, same) ↦ (
            p,
            (
              shown,
              (
                among,
                (same, ground (arith, subst (λ o. is_within o (sort_key q) ≡ true) shown within)),
              ),
            ),
          )
          | inr e ↦ absurd (nothing-found q.phone p e)
        ]
      ]
