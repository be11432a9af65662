-- ===== src/Base/Tables.antt =====
-- A database table as the list of its rows: `SELECT` of the first row, `SELECT` of all rows that
-- pass a test, `UPDATE ... WHERE`, and `COUNT`.
use Prim.Native.Nat.{ℕ, suc, ◌+◌, ◌≤◌}
use mathlib.Core.Path.{◌≡◌, refl, sym, ap}
use mathlib.Core.Bool.{Bool, true, false, ◌&&◌}
use mathlib.Core.Logic.{inl, inr}
use mathlib.Core.Option
use mathlib.Core.Option.{Option, none, some}
use mathlib.Core.List.{List, [], ◌∷◌, ◌++◌, Memᴰ}
use native.Mathlib.Omega.{arith}
use project_dipstick.Base.Lists.{length}
use project_dipstick.Base.Tests.{if◌then◌else◌, Bool-cases}

module _ {ℓ} {A : Type ℓ} where
  unfoldable pub find_row : (A → Bool) → List A → Option A
  find_row p [] = none
  find_row p (x ∷ xs) = if p x then some x else find_row p xs

  unfoldable pub select_rows : (A → Bool) → List A → List A
  select_rows p [] = []
  select_rows p (x ∷ xs) = let rest = select_rows p xs in if p x then x ∷ rest else rest

  unfoldable pub update_rows : (A → Bool) → (A → A) → List A → List A
  update_rows p f [] = []
  update_rows p f (x ∷ xs) = (if p x then f x else x) ∷ update_rows p f xs

  unfoldable pub count_rows : (A → Bool) → List A → ℕ
  count_rows p [] = 0
  count_rows p (x ∷ xs) = let rest = count_rows p xs in if p x then suc rest else rest

  -- A search whose test an update leaves alone finds the updated row.
  pub find_row-update_rows :
      (q p : A → Bool) (f : A → A) (xs : List A)
      → ((x : A) → q (f x) ≡ q x)
      → find_row q (update_rows p f xs) ≡ Option.map (λ x. if p x then f x else x) (find_row q xs)
  unfolding find_row update_rows
  find_row-update_rows q p f [] h = refl
  find_row-update_rows q p f (x ∷ xs) h = ground (arith, h x, find_row-update_rows q p f xs h)

  -- The row that a search finds passes its test.
  pub find_row-holds : (p : A → Bool) (xs : List A) (x : A) → find_row p xs ≡ some x → p x ≡ true
  unfolding find_row
  find_row-holds p [] x e = ground arith
  find_row-holds p (y ∷ ys) x e = ground (arith, find_row-holds p ys x)

  -- After an UPDATE whose rows no longer pass its test, no row passes it.
  pub find_row-update_rows_self :
      (p : A → Bool) (f : A → A) (xs : List A)
      → ((x : A) → p (f x) ≡ false)
      → find_row p (update_rows p f xs) ≡ none
  unfolding find_row update_rows
  find_row-update_rows_self p f [] h = refl
  find_row-update_rows_self p f (x ∷ xs) h = ground (arith, h x, find_row-update_rows_self p f xs h)

  pub length-select_rows :
      (p : A → Bool) (xs : List A) → length (select_rows p xs) ≡ count_rows p xs
  unfolding select_rows count_rows
  length-select_rows p [] = refl
  length-select_rows p (x ∷ xs) = ground (arith, length-select_rows p xs)

  -- A weaker test counts no fewer.
  pub count_rows_mono :
      (p q : A → Bool) (xs : List A)
      → ((x : A) → p x ≡ true → q x ≡ true)
      → count_rows p xs ≤ count_rows q xs
  unfolding count_rows
  count_rows_mono p q [] h = omega arith
  count_rows_mono p q (x ∷ xs) h = ground (arith, h x, count_rows_mono p q xs h)

  pub select_rows-select_rows :
      (p q : A → Bool) (xs : List A)
      → ((x : A) → p x ≡ true → q x ≡ true)
      → select_rows p (select_rows q xs) ≡ select_rows p xs
  unfolding select_rows
  select_rows-select_rows p q [] h = refl
  select_rows-select_rows p q (x ∷ xs) h = ground (arith, h x, select_rows-select_rows p q xs h)

  pub length-select_rows_upper :
      (p : A → Bool) (xs : List A) → length (select_rows p xs) ≤ length xs
  unfolding select_rows
  length-select_rows_upper p [] = omega arith
  length-select_rows_upper p (x ∷ xs) = ground (arith, length-select_rows_upper p xs)

  -- An update that leaves a test alone leaves its count alone.
  pub count_rows-update_rows :
      (q p : A → Bool) (f : A → A) (xs : List A)
      → ((x : A) → q (f x) ≡ q x)
      → count_rows q (update_rows p f xs) ≡ count_rows q xs
  unfolding count_rows update_rows
  count_rows-update_rows q p f [] h = refl
  count_rows-update_rows q p f (x ∷ xs) h = ground (arith, h x, count_rows-update_rows q p f xs h)

  pub count_rows-update_mono :
      (q p : A → Bool) (f : A → A) (xs : List A)
      → ((x : A) → p x ≡ true → q x ≡ true → q (f x) ≡ true)
      → count_rows q xs ≤ count_rows q (update_rows p f xs)
  unfolding count_rows update_rows
  count_rows-update_mono q p f [] h = omega arith
  count_rows-update_mono q p f (x ∷ xs) h = ground (arith, h x, count_rows-update_mono q p f xs h)

  -- An update takes at most the rows that it writes out of a count.
  pub count_rows-update_loss :
      (q p : A → Bool) (f : A → A) (xs : List A)
      → count_rows q xs ≤ count_rows q (update_rows p f xs) + count_rows p xs
  unfolding count_rows update_rows
  count_rows-update_loss q p f [] = omega arith
  count_rows-update_loss q p f (x ∷ xs) = ground (arith, count_rows-update_loss q p f xs)

  pub count_rows-append :
      (q : A → Bool) (xs ys : List A) → count_rows q ys ≤ count_rows q (xs ++ ys)
  unfolding count_rows
  count_rows-append q [] ys = omega arith
  count_rows-append q (x ∷ xs) ys = ground (arith, count_rows-append q xs ys)

  -- A search that an update's test excludes.
  pub find_row-update_rows_other :
      (q p : A → Bool) (f : A → A) (xs : List A)
      → ((x : A) → q (f x) ≡ q x)
      → ((x : A) → q x ≡ true → p x ≡ false)
      → find_row q (update_rows p f xs) ≡ find_row q xs
  unfolding find_row update_rows
  find_row-update_rows_other q p f [] h k = refl
  find_row-update_rows_other q p f (x ∷ xs) h k =
      ground (arith, h x, k x, find_row-update_rows_other q p f xs h k)

  -- A row that a search finds is a row of the table.
  pub find_row-Mem : (p : A → Bool) (xs : List A) (x : A) → find_row p xs ≡ some x → Memᴰ x xs
  unfolding find_row
  find_row-Mem p [] x e = absurd (ground (arith, e))
  find_row-Mem p (y ∷ ys) x e = elim (Bool-cases (p y)) [
    | inl hit ↦
        let same : some y ≡ some x = rw (hit, find_row) at e in
        Memᴰ.head (sym ((Option.some_inj).0 same))
    | inr miss ↦
        let later : find_row p ys ≡ some x = rw (miss, find_row) at e in
        Memᴰ.tail (find_row-Mem p ys x later)
  ]

  -- A search finds something where a row passes its test.
  pub find_row-found :
      (p : A → Bool) (xs : List A) (x : A)
      → Memᴰ x xs
      → p x ≡ true
      → (y : A) × (find_row p xs ≡ some y)
  unfolding find_row
  find_row-found p [] x found h = elim found [ ]
  find_row-found p (y ∷ ys) x (Memᴰ.head same) h = (y, ground (arith, h, ap p same))
  find_row-found p (y ∷ ys) x (Memᴰ.tail later) h = elim (Bool-cases (p y)) [
    | inl hit ↦ (y, ground (arith, hit))
    | inr miss ↦ let (z, e) = find_row-found p ys x later h in (z, rw (miss, find_row) e)
  ]

  -- A search in a selection.
  pub find_row-select_rows :
      (p q : A → Bool) (xs : List A) → find_row q (select_rows p xs) ≡ find_row (λ x. p x && q x) xs
  unfolding find_row select_rows
  find_row-select_rows p q [] = refl
  find_row-select_rows p q (x ∷ xs) = ground (arith, find_row-select_rows p q xs)
