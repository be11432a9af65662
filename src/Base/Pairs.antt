-- ===== src/Base/Pairs.antt =====
-- Facts on each row of a table, relations between any two rows, and what an UPDATE does to them.

use mathlib.Core.Path.{◌≡◌, subst}
use mathlib.Core.Logic.{inl, inr}
use mathlib.Core.Bool.{Bool, true, false}
use mathlib.Core.Option.{Option, none, some}
use mathlib.Core.Option
use mathlib.Core.List.{List, [], ◌∷◌, ◌++◌}
use native.Mathlib.Omega.{arith}
use project_dipstick.Base.Tests.{if◌then◌else◌, ltb, Bool-cases}
use project_dipstick.Base.Lists.{All}
use project_dipstick.Base.Tables.{find_row, select_rows, update_rows, count_rows}

module _ {ℓ} {A : Type ℓ} where
  -- Any row and any row behind it.
  abbrev pub Pairwise {κ} : (A → A → Type κ) → List A → Type κ
  Pairwise P [] = Unit
  Pairwise P (x ∷ xs) = All (P x) xs × Pairwise P xs

  pub All-follows {κ λ'} :
      (P : A → Type κ) (Q : A → Type λ') (xs : List A) → ((x : A) → P x → Q x) → All P xs → All Q xs
  All-follows P Q [] h a = tt
  All-follows P Q (x ∷ xs) h (p, ps) = (h x p, All-follows P Q xs h ps)

  pub All-both {κ λ'} :
      (P : A → Type κ) (Q : A → Type λ') (xs : List A)
      → All P xs
      → All Q xs
      → All (λ x. P x × Q x) xs
  All-both P Q [] p q = tt
  All-both P Q (x ∷ xs) (p, ps) (q, qs) = ((p, q), All-both P Q xs ps qs)

  pub All-always {κ} : (P : A → Type κ) (xs : List A) → ((x : A) → P x) → All P xs
  All-always P [] h = tt
  All-always P (x ∷ xs) h = (h x, All-always P xs h)

  -- A relation that follows from another one and from facts on each row.
  pub Pairwise-follows {κ λ' μ} :
      (P : A → A → Type κ) (R : A → A → Type λ') (Q : A → Type μ) (xs : List A)
      → ((x y : A) → Q x → Q y → R x y → P x y)
      → All Q xs
      → Pairwise R xs
      → Pairwise P xs
  Pairwise-follows P R Q [] h q r = tt
  Pairwise-follows P R Q (x ∷ xs) h (q, qs) (r, rs) = (
    All-follows (λ y. Q y × R x y) (P x) xs (λ y qr. h x y q qr.0 qr.1) (All-both Q (R x) xs qs r),
    Pairwise-follows P R Q xs h qs rs,
  )

  pub All-update_rows {κ} :
      (P : A → Type κ) (p : A → Bool) (f : A → A) (xs : List A)
      → All (λ x. P (if p x then f x else x)) xs
      → All P (update_rows p f xs)
  unfolding update_rows
  All-update_rows P p f [] a = tt
  All-update_rows P p f (x ∷ xs) (a, rest) = (a, All-update_rows P p f xs rest)

  pub Pairwise-update_rows {κ} :
      (P : A → A → Type κ) (p : A → Bool) (f : A → A) (xs : List A)
      → Pairwise (λ x y. P (if p x then f x else x) (if p y then f y else y)) xs
      → Pairwise P (update_rows p f xs)
  unfolding update_rows
  Pairwise-update_rows P p f [] a = tt
  Pairwise-update_rows P p f (x ∷ xs) (a, rest) =
      (All-update_rows (P (if p x then f x else x)) p f xs a, Pairwise-update_rows P p f xs rest)

  pub All-find_row {κ} :
      (P : A → Type κ) (p : A → Bool) (xs : List A) (x : A)
      → All P xs
      → find_row p xs ≡ some x
      → P x
  unfolding find_row
  All-find_row P p [] x a e = absurd (ground (arith, e))
  All-find_row P p (y ∷ ys) x (a, rest) e = elim (Bool-cases (p y)) [
    | inl hit ↦
        let same : some y ≡ some x = rw (hit, find_row) at e in subst P ((Option.some_inj).0 same) a
    | inr miss ↦
        let later : find_row p ys ≡ some x = rw (miss, find_row) at e in
        All-find_row P p ys x rest later
  ]

  pub All-select_rows {κ} :
      (P : A → Type κ) (p : A → Bool) (xs : List A)
      → All (λ x. p x ≡ true → P x) xs
      → All P (select_rows p xs)
  unfolding select_rows
  All-select_rows P p [] a = tt
  All-select_rows P p (x ∷ xs) (a, rest) = elim (Bool-cases (p x)) [
    | inl hit ↦ rw (hit) (a hit, All-select_rows P p xs rest)
    | inr miss ↦ rw (miss) (All-select_rows P p xs rest)
  ]

  -- The reverse: what holds of the selected rows, said of all.
  pub All-unselect {κ} :
      (P : A → Type κ) (p : A → Bool) (xs : List A)
      → All P (select_rows p xs)
      → All (λ x. p x ≡ true → P x) xs
  unfolding select_rows
  All-unselect P p [] a = tt
  All-unselect P p (x ∷ xs) a = elim (Bool-cases (p x)) [
    | inl hit ↦
        let both : All P (x ∷ select_rows p xs) = rw (hit) at a in
        (λ _. both.0, All-unselect P p xs both.1)
    | inr miss ↦
        let rest : All P (select_rows p xs) = rw (miss) at a in
        (λ e. absurd (ground arith), All-unselect P p xs rest)
  ]

  pub Pairwise-select_rows {κ} :
      (P : A → A → Type κ) (p : A → Bool) (xs : List A)
      → Pairwise P xs
      → Pairwise P (select_rows p xs)
  unfolding select_rows
  Pairwise-select_rows P p [] a = tt
  Pairwise-select_rows P p (x ∷ xs) (a, rest) = elim (Bool-cases (p x)) [
    | inl hit ↦ rw (hit) (
      All-select_rows (P x) p xs (All-follows (P x) (λ y. p y ≡ true → P x y) xs (λ y h _. h) a),
      Pairwise-select_rows P p xs rest,
    )
    | inr miss ↦ rw (miss) (Pairwise-select_rows P p xs rest)
  ]

  pub All-append {κ} : (P : A → Type κ) (xs ys : List A) → All P xs → All P ys → All P (xs ++ ys)
  All-append P [] ys a b = b
  All-append P (x ∷ xs) ys (a, rest) b = (a, All-append P xs ys rest b)

  pub Pairwise-append {κ} :
      (P : A → A → Type κ) (xs ys : List A)
      → Pairwise P xs
      → Pairwise P ys
      → All (λ x. All (P x) ys) xs
      → Pairwise P (xs ++ ys)
  Pairwise-append P [] ys a b c = b
  Pairwise-append P (x ∷ xs) ys (a, rest) b (c, cs) =
      (All-append (P x) xs ys a c, Pairwise-append P xs ys rest b cs)

  -- A count of zero.
  pub count_rows-nothing :
      (p : A → Bool) (xs : List A) → ltb 0 (count_rows p xs) ≡ false → All (λ x. p x ≡ false) xs
  unfolding count_rows
  count_rows-nothing p [] e = tt
  count_rows-nothing p (x ∷ xs) e = elim (Bool-cases (p x)) [
    | inl hit ↦ absurd (ground (arith, e, hit))
    | inr miss ↦
        let rest : ltb 0 (count_rows p xs) ≡ false = rw (miss) at e in
        (miss, count_rows-nothing p xs rest)
  ]
