-- ===== src/Connection/Table.antt =====
-- The lists of connections, of either kind: no two with the same key or the same peer, and what
-- an operation may do to such a list.
use project_2_congest.Base.{
  ℕ, suc, ◌≤◌, ◌<◌, ◌+◌, ◌≡◌, ◌≢◌, ◌⊎◌, inl, inr, refl, sym, ap, ◌∙◌, subst, false, Bool-cases,
  Option, none, some, List, [], ◌∷◌, length, ◌==◌, ==_iff, if◌then◌else◌, arith,
}
use project_2_congest.Connection.Provider.{same_peer}

module _ {A : Type 0} (key : A → ℕ) (peer : A → Option ℕ) (Good : A → Type 0) where
  -- `a` differs from every one of the list, in its key and in its peer.
  abbrev pub Apart : A → List A → Type 0
  Apart a [] = Unit {0}
  Apart a (b ∷ bs) = ((key a ≢ key b) × (same_peer (peer b) (peer a) ≡ false)) × Apart a bs

  -- Every connection is good, its key is below `bound`, and it differs from those behind it.
  abbrev pub Table : ℕ → List A → Type 0
  Table bound [] = Unit {0}
  Table bound (a ∷ xs) = (Good a × (key a < bound)) × Apart a xs × Table bound xs

  -- The second list with some connections changed, but not their keys and peers, or left out.
  pub data Follows : List A → List A → Type 0 where
    nil : Follows [] []
    keep :
        {a b : A} {xs ys : List A}
        → key b ≡ key a
        → peer b ≡ peer a
        → Good b
        → Follows ys xs
        → Follows (b ∷ ys) (a ∷ xs)
    leave : {a : A} {xs ys : List A} → Follows ys xs → Follows ys (a ∷ xs)

  Apart-same : (a b : A) (xs : List A) → key b ≡ key a → peer b ≡ peer a → Apart a xs → Apart b xs
  Apart-same a b [] k p h = tt
  Apart-same a b (x ∷ xs) k p h = (
    (λ e. h.0.0 (sym k ∙ e), subst (λ q. same_peer (peer x) q ≡ false) (sym p) h.0.1),
    Apart-same a b xs k p h.1,
  )

  Apart-Follows : (a : A) {xs ys : List A} → Follows ys xs → Apart a xs → Apart a ys
  Apart-Follows a nil h = tt
  Apart-Follows a (keep k p g f) h = (
    (λ e. h.0.0 (e ∙ k), subst (λ q. same_peer q (peer a) ≡ false) (sym p) h.0.1),
    Apart-Follows a f h.1,
  )
  Apart-Follows a (leave f) h = Apart-Follows a f h.1

  pub Table-Follows : (bound : ℕ) {xs ys : List A} → Follows ys xs → Table bound xs → Table bound ys
  Table-Follows bound nil h = tt
  Table-Follows bound (keep {a} {b} {xs} {ys} k p g f) h = (
    (g, subst (λ (n : ℕ). n < bound) (sym k) h.0.1),
    Apart-same a b ys k p (Apart-Follows a f h.1),
    Table-Follows bound f h.2,
  )
  Table-Follows bound (leave f) h = Table-Follows bound f h.2

  pub length-Follows : {xs ys : List A} → Follows ys xs → length ys ≤ length xs
  length-Follows nil = omega arith
  length-Follows (keep k p g f) = omega (arith, length-Follows f)
  length-Follows (leave f) = omega (arith, length-Follows f)

  pub Follows-refl : (bound : ℕ) (xs : List A) → Table bound xs → Follows xs xs
  Follows-refl bound [] h = nil
  Follows-refl bound (x ∷ xs) h = keep refl refl h.0.0 (Follows-refl bound xs h.2)

  pub Table-suc : (bound : ℕ) (xs : List A) → Table bound xs → Table (suc bound) xs
  Table-suc bound [] h = tt
  Table-suc bound (x ∷ xs) h = ((h.0.0, omega (arith, h.0.1)), h.1, Table-suc bound xs h.2)

  -- The first connection with a peer.
  unfoldable pub find : List A → Option ℕ → Option A
  find [] r = none
  find (x ∷ xs) r = if same_peer (peer x) r then some x else find xs r

  -- The list with `target` in the place of the connection with its key, and without it.
  unfoldable pub replace : List A → A → List A
  replace [] target = []
  replace (x ∷ xs) target = if key x == key target then target ∷ xs else x ∷ replace xs target

  unfoldable pub erase : List A → A → List A
  erase [] target = []
  erase (x ∷ xs) target = if key x == key target then xs else x ∷ erase xs target

  find_cases :
      (x : A) (xs : List A) (r : Option ℕ) (c : A)
      → find (x ∷ xs) r ≡ some c
      → (x ≡ c) ⊎ (find xs r ≡ some c)
  unfolding find
  find_cases x xs r c e = elim (Bool-cases (same_peer (peer x) r)) [
    | inl found ↦ inl (ground arith)
    | inr other ↦ inr (ground arith)
  ]

  pub find-Good :
      (bound : ℕ) (xs : List A) (r : Option ℕ) (c : A)
      → Table bound xs
      → find xs r ≡ some c
      → Good c
  find-Good bound [] r c h e = absurd (unfold find in ground arith)
  find-Good bound (x ∷ xs) r c h e = elim (find_cases x xs r c e) [
    | inl same ↦ subst Good same h.0.0
    | inr later ↦ find-Good bound xs r c h.2 later
  ]

  find-Apart :
      (xs : List A) (r : Option ℕ) (a c : A) → Apart a xs → find xs r ≡ some c → key a ≢ key c
  find-Apart [] r a c h e = absurd (unfold find in ground arith)
  find-Apart (x ∷ xs) r a c h e = elim (find_cases x xs r c e) [
    | inl same ↦ subst (λ y. key a ≢ key y) same h.0.0
    | inr later ↦ find-Apart xs r a c h.1 later
  ]

  -- A new connection, with a key not used yet and a peer that is not there, keeps the table.
  find-none-Apart :
      (xs : List A) (c : A) (bound : ℕ)
      → Table bound xs
      → bound ≤ key c
      → find xs (peer c) ≡ none
      → Apart c xs
  unfolding find
  find-none-Apart [] c bound t h e = tt
  find-none-Apart (x ∷ xs) c bound t h e = elim (Bool-cases (same_peer (peer x) (peer c))) [
    | inl found ↦ absurd (ground arith)
    | inr other ↦ ((omega (arith, t.0.1), other), find-none-Apart xs c bound t.2 h (ground arith))
  ]

  pub Table-cons :
      (bound : ℕ) (xs : List A) (c : A)
      → Table bound xs
      → Good c
      → key c ≡ bound
      → find xs (peer c) ≡ none
      → Table (suc bound) (c ∷ xs)
  Table-cons bound xs c t g k e = (
    (g, omega (arith, k)),
    find-none-Apart xs c bound t (omega (arith, k)) e,
    Table-suc bound xs t,
  )

  pub erase-Follows : (bound : ℕ) (xs : List A) (c : A) → Table bound xs → Follows (erase xs c) xs
  unfolding erase
  erase-Follows bound [] c h = nil
  erase-Follows bound (x ∷ xs) c h = elim (Bool-cases (key x == key c)) [
    | inl e ↦ rw e (leave (Follows-refl bound xs h.2))
    | inr e ↦ rw e (keep refl refl h.0.0 (erase-Follows bound xs c h.2))
  ]

  -- `d` is what became of the connection that was found.
  pub replace-Follows :
      (bound : ℕ) (xs : List A) (r : Option ℕ) (c d : A)
      → Table bound xs
      → find xs r ≡ some c
      → key d ≡ key c
      → peer d ≡ peer c
      → Good d
      → Follows (replace xs d) xs
  unfolding replace
  replace-Follows bound [] r c d h e k q v = nil
  replace-Follows bound (x ∷ xs) r c d h e k q v = elim (Bool-cases (key x == key d)) [
    | inl same ↦ elim (find_cases x xs r c e) [
      | inl found ↦
          rw same
            (keep (k ∙ ap key (sym found)) (q ∙ ap peer (sym found)) v (Follows-refl bound xs h.2))
      | inr later ↦ absurd (find-Apart xs r x c h.1 later ((==_iff _ _).0 same ∙ k))
    ]
    | inr other ↦ elim (find_cases x xs r c e) [
      | inl found ↦ absurd (ground (arith, k, other, ap key found))
      | inr later ↦ rw other (keep refl refl h.0.0 (replace-Follows bound xs r c d h.2 later k q v))
    ]
  ]

  -- A weight over a list.
  abbrev pub total : (A → ℕ) → List A → ℕ
  total f [] = 0
  total f (x ∷ xs) = f x + total f xs

  pub total-replace :
      (f : A → ℕ) (bound : ℕ) (xs : List A) (r : Option ℕ) (c d : A)
      → Table bound xs
      → find xs r ≡ some c
      → key d ≡ key c
      → total f (replace xs d) + f c ≡ total f xs + f d
  unfolding replace
  total-replace f bound [] r c d h e k = absurd (unfold find in ground arith)
  total-replace f bound (x ∷ xs) r c d h e k = elim (Bool-cases (key x == key d)) [
    | inl same ↦ elim (find_cases x xs r c e) [
      | inl found ↦ rw same (omega (arith, ap f found))
      | inr later ↦ absurd (find-Apart xs r x c h.1 later ((==_iff _ _).0 same ∙ k))
    ]
    | inr other ↦ elim (find_cases x xs r c e) [
      | inl found ↦ absurd (ground (arith, k, other, ap key found))
      | inr later ↦ rw other (omega (arith, total-replace f bound xs r c d h.2 later k))
    ]
  ]

  pub total-erase :
      (f : A → ℕ) (bound : ℕ) (xs : List A) (r : Option ℕ) (c : A)
      → Table bound xs
      → find xs r ≡ some c
      → total f (erase xs c) + f c ≡ total f xs
  unfolding erase
  total-erase f bound [] r c h e = absurd (unfold find in ground arith)
  total-erase f bound (x ∷ xs) r c h e = elim (Bool-cases (key x == key c)) [
    | inl same ↦ elim (find_cases x xs r c e) [
      | inl found ↦ rw same (omega (arith, ap f found))
      | inr later ↦ absurd (find-Apart xs r x c h.1 later ((==_iff _ _).0 same))
    ]
    | inr other ↦ elim (find_cases x xs r c e) [
      | inl found ↦ absurd (ground (arith, other, ap key found))
      | inr later ↦ rw other (omega (arith, total-erase f bound xs r c h.2 later))
    ]
  ]

  -- What is found is part of the total.
  pub find-le-total :
      (f : A → ℕ) (xs : List A) (r : Option ℕ) (c : A) → find xs r ≡ some c → f c ≤ total f xs
  find-le-total f [] r c e = absurd (unfold find in ground arith)
  find-le-total f (x ∷ xs) r c e = elim (find_cases x xs r c e) [
    | inl found ↦ omega (arith, ap f found)
    | inr later ↦ omega (arith, find-le-total f xs r c later)
  ]
