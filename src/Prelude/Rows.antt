-- ===== src/Prelude/Rows.antt =====
-- Tables of rows with an id: what `findUnique` and `update` do with `where: { id }`.
use Prim.Native.Nat.{ℕ, ◌<◌}
use mathlib.Core.Path.{◌≡◌, refl, ap}
use mathlib.Core.Logic.{inl, inr}
use mathlib.Core.Bool.{true, false}
use mathlib.Core.Option.{Option, none, some}
use mathlib.Core.List.{List, [], ◌∷◌, ◌++◌}
use native.Mathlib.Omega.{arith}
use pasalho.Prelude.Tests.{◌==◌, if◌then◌else◌, Bool-cases, ==-refl}
use pasalho.Prelude.Lists.{All}
use pasalho.Prelude.Int.{ℤ, ◌+ℤ◌, ◌-ℤ◌, sum_by, int_laws}

module _ {ℓ} {A : Type ℓ} (id_of : A → ℕ) where
  unfoldable pub find_row : ℕ → List A → Option A
  find_row id [] = none
  find_row id (r ∷ rows) = if id_of r == id then some r else find_row id rows

  unfoldable pub update_row : ℕ → (A → A) → List A → List A
  update_row id f [] = []
  update_row id f (r ∷ rows) = if id_of r == id then f r ∷ rows else r ∷ update_row id f rows

  pub find_row-id : (id : ℕ) (rows : List A) {r : A} → find_row id rows ≡ some r → id_of r ≡ id
  unfolding find_row
  find_row-id id [] h = absurd (ground (arith, h))
  find_row-id id (x ∷ rows) {r} h = elim (Bool-cases (id_of x == id)) [
    | inl e ↦ ground (arith, h, e)
    | inr e ↦ find_row-id id rows (ground (arith, h, e))
  ]

  -- An update that keeps the id is what a later lookup finds.
  pub find_row-update_row :
      (id : ℕ) (f : A → A) (rows : List A) {r : A}
      → id_of (f r) ≡ id_of r
      → find_row id rows ≡ some r
      → find_row id (update_row id f rows) ≡ some (f r)
  unfolding find_row update_row
  find_row-update_row id f [] k h = absurd (ground (arith, h))
  find_row-update_row id f (x ∷ rows) {r} k h = elim (Bool-cases (id_of x == id)) [
    | inl e ↦
        let same : x ≡ r = ground (arith, h, e) in
        let kept : (id_of (f x) == id) ≡ true = rw same (rw k (rw (← same) e)) in
        rw e (rw kept (ap (λ y. some (f y)) same))
    | inr e ↦ rw e (rw e (find_row-update_row id f rows k (ground (arith, h, e))))
  ]

  pub All-update_row {κ} :
      (P : A → Type κ) (id : ℕ) (f : A → A) (rows : List A)
      → ((r : A) → find_row id rows ≡ some r → P r → P (f r))
      → All P rows
      → All P (update_row id f rows)
  unfolding find_row update_row
  All-update_row P id f [] keep h = tt
  All-update_row P id f (x ∷ rows) keep (p, h) = elim (Bool-cases (id_of x == id)) [
    | inl e ↦ rw e (keep x (rw e refl) p, h)
    | inr e ↦ rw e (p, All-update_row P id f rows (λ r found. keep r (rw e found)) h)
  ]

  pub All-find_row {κ} :
      (P : A → Type κ) (id : ℕ) (rows : List A) {r : A}
      → All P rows
      → find_row id rows ≡ some r
      → P r
  unfolding find_row
  All-find_row P id [] h found = absurd (ground (arith, found))
  All-find_row P id (x ∷ rows) {r} (p, h) found = elim (Bool-cases (id_of x == id)) [
    | inl e ↦ let same : x ≡ r = ground (arith, found, e) in rw same at p
    | inr e ↦ All-find_row P id rows h (ground (arith, found, e))
  ]

  -- A row with a fresh id, added behind the others.
  pub find_row-append :
      (rows : List A) (x : A)
      → All (λ r. id_of r < id_of x) rows
      → find_row (id_of x) (rows ++ x ∷ []) ≡ some x
  unfolding find_row
  find_row-append [] x h = rw (==-refl (id_of x)) refl
  find_row-append (y ∷ rows) x (p, h) =
      let other : (id_of y == id_of x) ≡ false = ground (arith, p) in
      rw other (find_row-append rows x h)

  -- A total over the rows changes by what the updated row changes.
  pub sum_by-update_row :
      (g : A → ℤ) (id : ℕ) (f : A → A) (rows : List A) {r : A}
      → find_row id rows ≡ some r
      → sum_by g (update_row id f rows) ≡ sum_by g rows +ℤ (g (f r) -ℤ g r)
  unfolding find_row update_row sum_by
  sum_by-update_row g id f [] h = absurd (ground (arith, h))
  sum_by-update_row g id f (x ∷ rows) {r} h = elim (Bool-cases (id_of x == id)) [
    | inl e ↦ let same : x ≡ r = ground (arith, h, e) in rw e (rw same (omega int_laws))
    | inr e ↦
        rw e (rw (sum_by-update_row g id f rows {r = r} (ground (arith, h, e))) (omega int_laws))
  ]

  -- A row with an id that no row has, added behind the others.
  pub find_row-append_new :
      (rows : List A) (x : A)
      → find_row (id_of x) rows ≡ none
      → find_row (id_of x) (rows ++ x ∷ []) ≡ some x
  unfolding find_row
  find_row-append_new [] x h = rw (==-refl (id_of x)) refl
  find_row-append_new (y ∷ rows) x h = elim (Bool-cases (id_of y == id_of x)) [
    | inl e ↦ absurd (ground (arith, h, e))
    | inr e ↦ rw e (find_row-append_new rows x (ground (arith, h, e)))
  ]

  -- An update that keeps the ids is not seen under another id.
  pub find_row-update_row_other :
      (id j : ℕ) (f : A → A) (rows : List A)
      → ((r : A) → id_of (f r) ≡ id_of r)
      → (id == j) ≡ false
      → find_row j (update_row id f rows) ≡ find_row j rows
  unfolding find_row update_row
  find_row-update_row_other id j f [] k h = refl
  find_row-update_row_other id j f (x ∷ rows) k h = elim (Bool-cases (id_of x == id)) [
    | inl e ↦
        let other : (id_of x == j) ≡ false = ground (arith, e, h) in
        let other' : (id_of (f x) == j) ≡ false = rw (k x) other in rw e (rw (other, other') refl)
    | inr e ↦ rw e (elim (Bool-cases (id_of x == j)) [
      | inl e' ↦ rw e' refl
      | inr e' ↦ rw e' (find_row-update_row_other id j f rows k h)
    ])
  ]

  -- A row added behind the others is found where none of them is.
  pub find_row-append_other :
      (j : ℕ) (rows : List A) (x : A)
      → find_row j (rows ++ x ∷ [])
        ≡ elim (find_row j rows) [ some r ↦ some r | none ↦ if id_of x == j then some x else none ]
  unfolding find_row
  find_row-append_other j [] x = refl
  find_row-append_other j (y ∷ rows) x = elim (Bool-cases (id_of y == j)) [
    | inl e ↦ rw e refl
    | inr e ↦ rw e (find_row-append_other j rows x)
  ]
