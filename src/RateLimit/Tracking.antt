-- ===== src/RateLimit/Tracking.antt =====
-- A sorted set against the list of all times recorded in it so far, the newest first.
use project_dipstick.Base.{
  ℕ, ◌+◌, ◌≤◌, Bool, false, ◌&&◌, ◌≡◌, refl, ◌∙◌, inl, inr, Option, none, some, List, [], ◌∷◌,
  arith, leb, ltb, All, select_rows, Bool-cases, select_rows-select_rows,
}
use project_dipstick.RateLimit.Windows.{
  ZSet, empty_zset, has_expired, read_zset, is_recent, trim, add_score,
}

-- Recorded at `t` or in the window before it.
abbrev pub in_window : ℕ → ℕ → ℕ → Bool
in_window window t a = leb a t && ltb t (a + window)

abbrev pub IsPast : ℕ → List ℕ → Type 0
IsPast now log = All (λ a. a ≤ now) log

-- From `last` on the set holds, of each moment's window, what the log has there.
abbrev pub Holds : ℕ → ℕ → ZSet → List ℕ → Type 0
Holds window last z log =
    (t : ℕ)
    → last ≤ t
    → select_rows (is_recent window t) (read_zset t z) ≡ select_rows (is_recent window t) log

pub IsPast-later : (last now : ℕ) (log : List ℕ) → last ≤ now → IsPast last log → IsPast now log
IsPast-later last now [] h p = tt
IsPast-later last now (a ∷ log) h (p, ps) = (omega arith, IsPast-later last now log h ps)

pub Holds-empty : (window last : ℕ) → Holds window last empty_zset []
unfolding read_zset has_expired select_rows
Holds-empty window last t h = refl

-- What has not expired had not before.
has_expired-earlier :
    (now t : ℕ) (e : Option ℕ) → now ≤ t → has_expired t e ≡ false → has_expired now e ≡ false
unfolding has_expired
has_expired-earlier now t none h e = refl
has_expired-earlier now t (some x) h e = ground arith

-- A later window shows no more than an earlier one.
recent-recent :
    (window now t : ℕ) (xs : List ℕ)
    → now ≤ t
    → select_rows (is_recent window t) (select_rows (is_recent window now) xs)
      ≡ select_rows (is_recent window t) xs
recent-recent window now t xs h =
    select_rows-select_rows (is_recent window t) (is_recent window now) xs (λ a e. ground arith)

-- Nothing recorded by `now` is recent a window later.
recent-past :
    (window now t : ℕ) (log : List ℕ)
    → IsPast now log
    → now + window ≤ t
    → select_rows (is_recent window t) log ≡ []
unfolding select_rows
recent-past window now t [] p h = refl
recent-past window now t (a ∷ log) (p, ps) h = ground (arith, recent-past window now t log ps h)

-- A later window reads the same of a set and of the trimmed set.
pub read-trim :
    (window now t : ℕ) (z : ZSet)
    → now ≤ t
    → select_rows (is_recent window t) (read_zset t (trim window now z))
      ≡ select_rows (is_recent window t) (read_zset t z)
unfolding read_zset trim
read-trim window now t z h = elim (Bool-cases (has_expired t z.expires_at)) [
  | inl gone ↦ rw (gone) refl
  | inr live ↦
      rw (live, has_expired-earlier now t z.expires_at h live)
        (recent-recent window now t z.scores h)
]

module _ (window last now : ℕ) (z : ZSet) (log : List ℕ) (holds : Holds window last z log)
    (order : last ≤ now) where
  -- What a trimmed set holds.
  pub trim-scores : (trim window now z).scores ≡ select_rows (is_recent window now) log
  unfolding trim
  trim-scores = holds now order

  -- Trimming loses nothing that a later window would show.
  pub Holds-trim : Holds window now (trim window now z) log
  Holds-trim t later = read-trim window now t z later ∙ holds t (omega arith)

  pub Holds-add_score :
      IsPast last log → Holds window now (add_score window now (trim window now z)) (now ∷ log)
  unfolding read_zset add_score has_expired select_rows
  Holds-add_score past t later = elim (Bool-cases (leb (now + window) t)) [
    | inl gone ↦ ground (arith, recent-past window now t log (IsPast-later last now log order past))
    | inr live ↦ rw (live, trim-scores) (ground (arith, recent-recent window now t log later))
  ]
