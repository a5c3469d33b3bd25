-- ===== src/Study/Store/Rows.antt =====
-- The rows of sessions under the statements of the repository.
use hquizlet_platform.Prelude.{
  ℕ, ◌+◌, ◌≤◌, ◌≡◌, ◌⊎◌, refl, ap, ◌∙◌, sym, Bool, true, not, ◌&&◌, String, List, [], ◌∷◌, none,
  some, count, All, arith, str_eq, eq_iff, Option-cases, Bool-cases, and-eq_true, inl, inr,
  if◌then◌else◌,
}
use hquizlet_platform.Study.View.{is_some}
use hquizlet_platform.Study.Store.{SessionRow, row_of, update_row, drop_rows, is_open, open_row}

-- The primary key.
abbrev pub distinct_rows : List SessionRow → Bool
distinct_rows [] = true
distinct_rows (r ∷ rs) = not (is_some (row_of r.id rs)) && distinct_rows rs

eq_sym : (s t : String) → str_eq s t ≡ str_eq t s
eq_sym s t = elim (Bool-cases (str_eq s t)) [
  | inl same ↦ ground (arith, same, sym ((eq_iff s t).0 same), eq_iff t s)
  | inr other ↦ elim (Bool-cases (str_eq t s)) [
    | inl same ↦ ground (arith, other, sym ((eq_iff t s).0 same), eq_iff s t)
    | inr both ↦ other ∙ sym both
  ]
]

pub row_of-id :
    (k : String) (rs : List SessionRow) (r : SessionRow) → row_of k rs ≡ some r → r.id ≡ k
unfolding row_of
row_of-id k [] r h = cc
row_of-id k (x ∷ rs) r h = elim (Bool-cases (str_eq x.id k)) [
  | inl same ↦ ground (arith, same, (eq_iff x.id k).0 same)
  | inr other ↦ ground (arith, other, row_of-id k rs r)
]

module _ (id : String) (f : SessionRow → SessionRow)
    (keeps : (r : SessionRow) → (f r).id ≡ r.id) where
  pub row_of-update_none :
      (k : String) (rs : List SessionRow)
      → row_of k rs ≡ none
      → row_of k (update_row id f rs) ≡ none
  unfolding row_of update_row
  row_of-update_none k [] h = refl
  row_of-update_none k (x ∷ rs) h =
      ground (arith, ap (λ n. str_eq n k) (keeps x), row_of-update_none k rs)

  pub row_of-update_some :
      (k : String) (rs : List SessionRow) (r : SessionRow)
      → row_of k rs ≡ some r
      → row_of k (update_row id f rs) ≡ some (if str_eq k id then f r else r)
  unfolding row_of update_row
  row_of-update_some k [] r h = cc
  row_of-update_some k (x ∷ rs) r h = elim (Bool-cases (str_eq x.id k)) [
    | inl same ↦ ground (
      arith,
      same,
      ap (λ n. str_eq n k) (keeps x),
      ap (λ n. str_eq n id) ((eq_iff x.id k).0 same),
    )
    | inr other ↦ elim (Bool-cases (str_eq x.id id)) [
      | inr there ↦ ground (arith, other, there, row_of-update_some k rs r)
      | inl here ↦ ground (
        arith,
        other,
        here,
        ap (λ n. str_eq n k) (keeps x),
        ap (λ n. str_eq n k) ((eq_iff x.id id).0 here),
        eq_sym k id,
      )
    ]
  ]

  row_of-update_is :
      (k : String) (rs : List SessionRow)
      → is_some (row_of k (update_row id f rs)) ≡ is_some (row_of k rs)
  row_of-update_is k rs = elim (Option-cases (row_of k rs)) [
    | inl absent ↦ ground (arith, absent, row_of-update_none k rs absent)
    | inr (r, found) ↦ ground (arith, found, row_of-update_some k rs r found)
  ]

  pub update_row-distinct :
      (rs : List SessionRow) → distinct_rows rs ≡ true → distinct_rows (update_row id f rs) ≡ true
  unfolding update_row
  update_row-distinct [] h = refl
  update_row-distinct (x ∷ rs) h = elim (Bool-cases (str_eq x.id id)) [
    | inl here ↦ rw here (rw (keeps x) h)
    | inr there ↦ rw (there, row_of-update_is x.id rs) (ground (arith, update_row-distinct rs))
  ]

  pub All-update_row {κ} :
      (P : SessionRow → Type κ) (rs : List SessionRow)
      → All P rs
      → ((r : SessionRow) → row_of id rs ≡ some r → P r → P (f r))
      → All P (update_row id f rs)
  unfolding update_row row_of
  All-update_row P [] h g = tt
  All-update_row P (x ∷ rs) h g = elim (Bool-cases (str_eq x.id id)) [
    | inl here ↦ rw here (g x (rw here refl) h.0, h.1)
    | inr there ↦ rw there (h.0, All-update_row P rs h.1 (λ r m. g r (ground (arith, there, m))))
  ]

module _ (q : SessionRow → Bool) where
  pub row_of-drop_none :
      (k : String) (rs : List SessionRow) → row_of k rs ≡ none → row_of k (drop_rows q rs) ≡ none
  unfolding row_of drop_rows
  row_of-drop_none k [] h = refl
  row_of-drop_none k (x ∷ rs) h = ground (arith, row_of-drop_none k rs)

  -- A row is dropped, or stays as it is.
  pub row_of-drop_some :
      (k : String) (rs : List SessionRow) (r : SessionRow)
      → distinct_rows rs ≡ true
      → row_of k rs ≡ some r
      → (row_of k (drop_rows q rs) ≡ none) ⊎ (row_of k (drop_rows q rs) ≡ some r)
  unfolding row_of drop_rows
  row_of-drop_some k [] r d h = cc
  row_of-drop_some k (x ∷ rs) r d h = elim (Bool-cases (str_eq x.id k)) [
    | inl same ↦ elim (Bool-cases (q x)) [
      | inl gone ↦ inl (
          rw gone (
            row_of-drop_none k rs
              (ground (arith, d, ap (λ n. row_of n rs) ((eq_iff x.id k).0 same)))))
      | inr kept ↦ inr (ground (arith, same, kept, h))
    ]
    | inr other ↦ ground (arith, other, row_of-drop_some k rs r)
  ]

  pub drop_rows-distinct :
      (rs : List SessionRow) → distinct_rows rs ≡ true → distinct_rows (drop_rows q rs) ≡ true
  unfolding drop_rows
  drop_rows-distinct [] h = refl
  drop_rows-distinct (x ∷ rs) h = elim (Bool-cases (q x)) [
    | inl gone ↦ rw gone (drop_rows-distinct rs (and-eq_true _ _ h).1)
    | inr kept ↦ rw kept (
        ground (
          arith,
          h,
          drop_rows-distinct rs,
          row_of-drop_none x.id rs,
          Option-cases (row_of x.id rs),
        ))
  ]

  pub All-drop_rows {κ} :
      (P : SessionRow → Type κ) (rs : List SessionRow) → All P rs → All P (drop_rows q rs)
  unfolding drop_rows
  All-drop_rows P [] h = tt
  All-drop_rows P (x ∷ rs) h = elim (Bool-cases (q x)) [
    | inl gone ↦ rw gone (All-drop_rows P rs h.1)
    | inr kept ↦ rw kept (h.0, All-drop_rows P rs h.1)
  ]

  pub count-drop_rows :
      (p : SessionRow → Bool) (rs : List SessionRow) → count p (drop_rows q rs) ≤ count p rs
  unfolding drop_rows
  count-drop_rows p [] = omega arith
  count-drop_rows p (x ∷ rs) = ground (arith, count-drop_rows p rs)

add_mono : {a b c d : ℕ} → a ≤ b → c ≤ d → a + c ≤ b + d
add_mono h k = omega (arith, h, k)

test_mono : (b c : Bool) → (b ≡ true → c ≡ true) → (if b then 1 else 0) ≤ (if c then 1 else 0)
test_mono b c h = ground (arith, Bool-cases b)

pub count_mono :
    (p q : SessionRow → Bool) (rs : List SessionRow)
    → ((r : SessionRow) → p r ≡ true → q r ≡ true)
    → count p rs ≤ count q rs
count_mono p q [] h = omega arith
count_mono p q (x ∷ rs) h = add_mono (test_mono (p x) (q x) (h x)) (count_mono p q rs h)

-- An update that makes no row pass the test which did not pass another makes no more rows pass it.
pub count-update_row :
    (p q : SessionRow → Bool) (id : String) (f : SessionRow → SessionRow) (rs : List SessionRow)
    → ((r : SessionRow) → p r ≡ true → q r ≡ true)
    → ((r : SessionRow) → row_of id rs ≡ some r → p (f r) ≡ true → q r ≡ true)
    → count p (update_row id f rs) ≤ count q rs
unfolding update_row row_of
count-update_row p q id f [] h g = omega arith
count-update_row p q id f (x ∷ rs) h g = elim (Bool-cases (str_eq x.id id)) [
  | inl here ↦
      rw here (add_mono (test_mono (p (f x)) (q x) (g x (rw here refl))) (count_mono p q rs h))
  | inr there ↦ rw there (
      add_mono (test_mono (p x) (q x) (h x))
        (count-update_row p q id f rs h (λ r m. g r (ground (arith, there, m)))))
]

pub open_row-inv :
    (id : String) (u k now : ℕ) (rs : List SessionRow) (r : SessionRow)
    → open_row id u k now rs ≡ some r
    → (row_of id rs ≡ some r) × (is_open u k now r ≡ true)
unfolding open_row
open_row-inv id u k now rs r h = elim (Option-cases (row_of id rs)) [
  | inl absent ↦ ground (arith, absent)
  | inr (x, found) ↦ elim (Bool-cases (is_open u k now x)) [
    | inl live ↦ ground (arith, found, live)
    | inr shut ↦ ground (arith, found, shut)
  ]
]
