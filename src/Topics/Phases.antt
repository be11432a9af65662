-- ===== src/Topics/Phases.antt =====
-- The rules of the table under the reorder's two phases: each row that a checked UPDATE writes has
-- passed the unique index.

use mathlib.Core.Option
use mathlib.Core.Path.{subst}
use project_dipstick.Base.{
  Bool, false, ◌&&◌, ◌||◌, ◌≡◌, sym, ap, inl, inr, some, List, [], ◌∷◌, arith, if◌then◌else◌, All,
  Bool-cases, Option-cases, any, update_rows,
}
use project_dipstick.Base.Int.{ℤ}
use project_dipstick.Base.Pairs.{Pairwise, All-follows, All-both}
use project_dipstick.Topics.Defs.{JsText, TopicRow}
use project_dipstick.Topics.Reorder.{shares_position, update_checked}
use project_dipstick.Topics.Tidy.{clashes, AreApart, clashes_sym}

abbrev pub moved_to : ℤ → TopicRow → TopicRow
moved_to k t = record t { display_order = k }

-- An UPDATE of display_order alone.
abbrev pub MovesOnly : (TopicRow → TopicRow) → Type 0
MovesOnly f = (t : TopicRow) → f t ≡ moved_to (f t).display_order t

pub any-nothing {ℓ} :
    {A : Type ℓ} (p : A → Bool) (xs : List A) → any p xs ≡ false → All (λ x. p x ≡ false) xs
any-nothing p [] e = tt
any-nothing p (x ∷ xs) e = (ground (arith, e), any-nothing p xs (ground (arith, e)))

moved-apart :
    (js : JsText) (names : Bool) (k : ℤ) (t x : TopicRow)
    → clashes js names t x ≡ false
    → shares_position (moved_to k t) x ≡ false
    → clashes js names (moved_to k t) x ≡ false
unfolding clashes shares_position
moved-apart js names k t x h e = ground (arith, h, e)

-- The row that the UPDATE leaves at the place of `t`.
abbrev written : (TopicRow → Bool) → (TopicRow → TopicRow) → TopicRow → TopicRow
written p f t = if p t then f t else t

written-apart :
    (js : JsText) (names : Bool) (p : TopicRow → Bool) (f : TopicRow → TopicRow) (t : TopicRow)
    (xs : List TopicRow)
    → MovesOnly f
    → (p t && any (shares_position (written p f t)) xs) ≡ false
    → All (AreApart js names t) xs
    → All (AreApart js names (written p f t)) xs
written-apart js names p f t xs moves e a = elim (Bool-cases (p t)) [
  | inr miss ↦ rw (miss) a
  | inl hit ↦
      let free : any (shares_position (f t)) xs ≡ false = rw (hit) at e in
      rw (hit, moves t)
        (All-follows (λ x. AreApart js names t x × (shares_position (f t) x ≡ false))
          (AreApart js names (moved_to (f t).display_order t)) xs
          (λ x h.
            moved-apart js names (f t).display_order t x h.0
              (subst (λ u. shares_position u x ≡ false) (moves t) h.1))
          (All-both (AreApart js names t) (λ x. shares_position (f t) x ≡ false) xs a
            (any-nothing (shares_position (f t)) xs free)))
]

abbrev ApartFrom : JsText → Bool → List TopicRow → TopicRow → Type 0
ApartFrom js names done x = All (λ d. clashes js names d x ≡ false) done

-- Rows apart from each other and from those passed stay so.
pub update_checked-apart :
    (js : JsText) (names : Bool) (p : TopicRow → Bool) (f : TopicRow → TopicRow)
    (done rows us : List TopicRow)
    → MovesOnly f
    → All (ApartFrom js names done) rows
    → Pairwise (AreApart js names) rows
    → update_checked p f done rows ≡ some us
    → Pairwise (AreApart js names) us × All (ApartFrom js names done) us
unfolding update_checked
update_checked-apart js names p f done [] us moves a b e =
    subst (λ xs. Pairwise (AreApart js names) xs × All (ApartFrom js names done) xs)
      ((Option.some_inj).0 e) (tt, tt)
update_checked-apart js names p f done (t ∷ ts) us moves (a, rest) (b, bs) e =
    let u = written p f t in
    elim (Bool-cases (p t && (any (shares_position u) done || any (shares_position u) ts))) [
      | inl hit ↦ absurd (ground (arith, hit, e))
      | inr free ↦ elim (Option-cases (update_checked p f (u ∷ done) ts)) [
        | inl stuck ↦ absurd (ground (arith, free, stuck, e))
        | inr (vs, found) ↦
            let all : some (u ∷ vs) ≡ some us = rw (free, found, update_checked) at e in
            let flip : All (AreApart js names t) done =
              All-follows (λ d. clashes js names d t ≡ false) (AreApart js names t) done
                (λ d h. clashes_sym js names d t h) a in
            let behind = written-apart js names p f t done moves (ground (arith, free)) flip in
            let ahead = written-apart js names p f t ts moves (ground (arith, free)) b in
            let (pairs, apart) =
              update_checked-apart js names p f (u ∷ done) ts vs moves
                (All-both (AreApart js names u) (ApartFrom js names done) ts ahead rest) bs found in
            subst (λ xs. Pairwise (AreApart js names) xs × All (ApartFrom js names done) xs)
              ((Option.some_inj).0 all)
              (
                (
                  All-follows (ApartFrom js names (u ∷ done)) (AreApart js names u) vs (λ x h. h.0)
                      apart,
                  pairs,
                ),
                (
                  All-follows (AreApart js names u) (λ d. clashes js names d u ≡ false) done
                      (λ d h. clashes_sym js names u d h) behind,
                  All-follows (ApartFrom js names (u ∷ done)) (ApartFrom js names done) vs
                      (λ x h. h.1) apart,
                ),
              )
      ]
    ]

-- The rows are those of the plain UPDATE.
pub update_checked-rows :
    (p : TopicRow → Bool) (f : TopicRow → TopicRow) (done rows us : List TopicRow)
    → update_checked p f done rows ≡ some us
    → us ≡ update_rows p f rows
unfolding update_checked update_rows
update_checked-rows p f done [] us e = sym ((Option.some_inj).0 e)
update_checked-rows p f done (t ∷ ts) us e =
    let u = written p f t in
    elim (Bool-cases (p t && (any (shares_position u) done || any (shares_position u) ts))) [
      | inl hit ↦ absurd (ground (arith, hit, e))
      | inr free ↦ elim (Option-cases (update_checked p f (u ∷ done) ts)) [
        | inl stuck ↦ absurd (ground (arith, free, stuck, e))
        | inr (vs, found) ↦
            let all : some (u ∷ vs) ≡ some us = rw (free, found, update_checked) at e in
            rw (sym ((Option.some_inj).0 all))
              (ap (λ xs. u ∷ xs) (update_checked-rows p f (u ∷ done) ts vs found))
      ]
    ]
