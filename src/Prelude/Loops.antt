-- ===== src/Prelude/Loops.antt =====
-- Rules for `for_each`: what every round keeps, the loop keeps; what every round adds, it sums.
use mathlib.Core.Path.{◌≡◌, refl, sym, ap, ◌∙◌}
use mathlib.Core.List.{List, [], ◌∷◌}
use pasalho.Prelude.Int.{ℤ, ◌+ℤ◌, sum_by, +ℤ-zero, +ℤ_assoc}
use mathlib.Core.Logic.{inl, inr}
use pasalho.Prelude.Result.{Result, Result-cases, ok, err, Tx, lift, for_each}

-- What an outcome leaves behind, if it is a success.
abbrev pub Ensures {ℓ κ} : {S A : Type ℓ} → Result (A × S) → (S → Type κ) → Type κ
Ensures (ok (a, t)) P = P t
Ensures (err e) P = Unit

-- What an outcome returns and leaves behind, if it is a success.
abbrev pub Returns {ℓ κ} : {S A : Type ℓ} → Result (A × S) → (A → S → Type κ) → Type κ
Returns (ok (a, t)) P = P a t
Returns (err e) P = Unit

pub Returns-then {ℓ κ μ} :
    {S A B : Type ℓ} (P : A → S → Type κ) (Q : B → S → Type μ) (r : Result (A × S))
    (f : A → S → Result (B × S))
    → Returns r P
    → ((a : A) (t : S) → P a t → Returns (f a t) Q)
    → Returns {A = B} (elim r [ ok (a, t) ↦ f a t | err e ↦ err e ]) Q
Returns-then P Q (ok (a, t)) f p h = h a t p
Returns-then P Q (err e) f p h = tt

pub Returns-bind {ℓ κ} :
    {S A B : Type ℓ} (Q : B → S → Type κ) (r : Result (A × S)) (f : A → S → Result (B × S))
    → ((a : A) (t : S) → r ≡ ok (a, t) → Returns (f a t) Q)
    → Returns {A = B} (elim r [ ok (a, t) ↦ f a t | err e ↦ err e ]) Q
Returns-bind Q (ok (a, t)) f h = h a t refl
Returns-bind Q (err e) f h = tt

-- A check that writes nothing, and what follows where it passes.
pub Returns-lift {κ} :
    {S A B : Type 0} (Q : B → S → Type κ) (f : S → Result A) (k : A → S → Result (B × S)) (s : S)
    → ((a : A) → f s ≡ ok a → Returns (k a s) Q)
    → Returns {A = B} (elim (lift f s) [ ok (a, t) ↦ k a t | err e ↦ err e ]) Q
Returns-lift Q f k s h = elim (Result-cases (f s)) [
  | inl (a, e) ↦ rw (e, Returns) (h a e)
  | inr (x, e) ↦ rw (e, Returns) tt
]

pub Returns-map {ℓ κ μ} :
    {S A : Type ℓ} {P : A → S → Type κ} {Q : A → S → Type μ} (r : Result (A × S))
    → Returns r P
    → ((a : A) (t : S) → P a t → Q a t)
    → Returns r Q
Returns-map (ok (a, t)) h f = f a t h
Returns-map (err e) h f = tt

pub Returns_of_Ensures {ℓ κ} :
    {S A : Type ℓ} (P : S → Type κ) (r : Result (A × S)) → Ensures r P → Returns r (λ a t. P t)
Returns_of_Ensures P (ok (a, t)) h = h
Returns_of_Ensures P (err e) h = tt

pub Returns-ok {ℓ κ} :
    {S A : Type ℓ} (P : A → S → Type κ) (r : Result (A × S)) {a : A} {t : S}
    → Returns r P
    → r ≡ ok (a, t)
    → P a t
Returns-ok P r {a} {t} h e = rw e at h

-- The rule for a step and what follows it.
pub Ensures-bind {ℓ κ} :
    {S A B : Type ℓ} (P : S → Type κ) (r : Result (A × S)) (f : A → S → Result (B × S))
    → ((a : A) (t : S) → r ≡ ok (a, t) → Ensures (f a t) P)
    → Ensures {A = B} (elim r [ ok (a, t) ↦ f a t | err e ↦ err e ]) P
Ensures-bind P (ok (a, t)) f h = h a t refl
Ensures-bind P (err e) f h = tt

-- An invariant of every call holds of what the call returned.
pub Ensures-ok {ℓ κ} :
    {S A : Type ℓ} (P : S → Type κ) (r : Result (A × S)) {a : A} {t : S}
    → Ensures r P
    → r ≡ ok (a, t)
    → P t
Ensures-ok P r {a} {t} h e = rw e at h

pub Ensures-intro {ℓ κ} :
    {S A : Type ℓ} (P : S → Type κ) (r : Result (A × S))
    → ((a : A) (t : S) → r ≡ ok (a, t) → P t)
    → Ensures r P
Ensures-intro P (ok (a, t)) h = h a t refl
Ensures-intro P (err e) h = tt

-- A step that leaves `P` behind, and what follows it from there.
pub Ensures-then {ℓ κ μ} :
    {S A B : Type ℓ} (P : S → Type κ) (Q : S → Type μ) (r : Result (A × S))
    (f : A → S → Result (B × S))
    → Ensures r P
    → ((a : A) (t : S) → P t → Ensures (f a t) Q)
    → Ensures {A = B} (elim r [ ok (a, t) ↦ f a t | err e ↦ err e ]) Q
Ensures-then P Q (ok (a, t)) f p h = h a t p
Ensures-then P Q (err e) f p h = tt

pub Ensures-map {ℓ κ μ} :
    {S A : Type ℓ} {P : S → Type κ} {Q : S → Type μ} (r : Result (A × S))
    → Ensures r P
    → ((t : S) → P t → Q t)
    → Ensures r Q
Ensures-map (ok (a, t)) h f = f t h
Ensures-map (err e) h f = tt

module _ {ℓ} {A : Type ℓ} {S : Type 0} (body : A → Tx S Unit) where
  pub for_each-keeps {κ} :
      (P : S → Type κ)
      → ((x : A) (s : S) → P s → Ensures (body x s) P)
      → (xs : List A) (s : S) → P s
      → Ensures (for_each body xs s) P
  unfolding for_each
  for_each-keeps P step [] s p = p
  for_each-keeps P step (x ∷ xs) s p =
      Ensures-bind P (body x s) (λ u t. for_each body xs t)
        λ u t e. for_each-keeps P step xs t (Ensures-ok P (body x s) (step x s p) e)

  pub for_each-sums :
      (f : S → ℤ) (d : A → ℤ)
      → ((x : A) (s : S) → Ensures (body x s) (λ t. f t ≡ f s +ℤ d x))
      → (xs : List A) (s : S) → Ensures (for_each body xs s) (λ t. f t ≡ f s +ℤ sum_by d xs)
  unfolding for_each sum_by
  for_each-sums f d step [] s = sym (+ℤ-zero (f s))
  for_each-sums f d step (x ∷ xs) s =
      Ensures-bind (λ t. f t ≡ f s +ℤ sum_by d (x ∷ xs)) (body x s) (λ u t. for_each body xs t)
        λ u t e. Ensures-map (for_each body xs t) (for_each-sums f d step xs t) λ t' h.
          h
          ∙ ap (λ v. v +ℤ sum_by d xs) (Ensures-ok (λ v. f v ≡ f s +ℤ d x) (body x s) (step x s) e)
          ∙ +ℤ_assoc (f s) (d x) (sum_by d xs)
