-- ===== src/Study/Pages/Groups.antt =====
-- The pages of a quiz are its groups.
use hquizlet_platform.Prelude.{
  ℕ, zero, suc, ◌+◌, ◌≤◌, ◌<◌, ◌≡◌, refl, ap, ap₂, ◌∙◌, sym, Bool, true, false, ◌&&◌, List, [], ◌∷◌,
  ◌++◌, map, length, all, ltb, leb, ◌==◌, arith, ==_refl, Bool-cases, and-eq_true, inl, inr,
  if◌then◌else◌,
}
use hquizlet_platform.Study.Model.{SessionItem}
use hquizlet_platform.Study.Pages.{
  indices_from, repeat, run_length, after_run, pages_from, snapshot_index,
}

-- The groups do not descend, and start at `low` at least.
abbrev pub is_grouped : ℕ → List SessionItem → Bool
is_grouped low [] = true
is_grouped low (x ∷ xs) = leb low x.group && is_grouped x.group xs

-- The indices of the items of a group, where the first item has the index `start`.
abbrev pub members : ℕ → ℕ → List SessionItem → List ℕ
members g start [] = []
members g start (x ∷ xs) =
    if x.group == g then start ∷ members g (start + 1) xs else members g (start + 1) xs

abbrev above : ℕ → List SessionItem → Bool
above g = all (λ y. ltb g y.group)

is_grouped-above :
    (g low : ℕ) (xs : List SessionItem) → g < low → is_grouped low xs ≡ true → above g xs ≡ true
is_grouped-above g low [] le h = refl
is_grouped-above g low (x ∷ xs) le h =
    let (first, rest) = and-eq_true (leb low x.group) (is_grouped x.group xs) h in
    ground (arith, first, le, is_grouped-above g x.group xs (ground (arith, first, le)) rest)

pub is_grouped-weaken :
    (low k : ℕ) (xs : List SessionItem)
    → k ≤ low
    → is_grouped low xs ≡ true
    → is_grouped k xs ≡ true
is_grouped-weaken low k [] le h = refl
is_grouped-weaken low k (x ∷ xs) le h = ground (arith, h, le)

members-above : (g start : ℕ) (xs : List SessionItem) → above g xs ≡ true → members g start xs ≡ []
members-above g start [] h = refl
members-above g start (x ∷ xs) h = ground (arith, h, members-above g (start + 1) xs)

after_run-above :
    (g : ℕ) (xs : List SessionItem)
    → is_grouped g xs ≡ true
    → (above g (after_run g xs) ≡ true) × (is_grouped 0 (after_run g xs) ≡ true)
unfolding after_run
after_run-above g [] h = (refl, refl)
after_run-above g (x ∷ xs) h = elim (Bool-cases (x.group == g)) [
  | inl same ↦ rw same (
      after_run-above g xs
        (ground (arith, h, is_grouped-weaken x.group g xs (ground (arith, same)))))
  | inr other ↦ rw other (
    is_grouped-above g x.group (x ∷ xs) (ground (arith, h, other)) (ground (arith, h)),
    is_grouped-weaken g 0 (x ∷ xs) (omega arith) h,
  )
]

-- The group at the front is its run.
members-run :
    (g start : ℕ) (xs : List SessionItem)
    → is_grouped g xs ≡ true
    → members g start xs ≡ indices_from start (run_length g xs)
unfolding run_length
members-run g start [] h = refl
members-run g start (x ∷ xs) h = elim (Bool-cases (x.group == g)) [
  | inl same ↦ rw same (
      ap (λ r. start ∷ r)
        (members-run g (start + 1) xs (ground (arith, h, is_grouped-weaken x.group g xs, same))))
  | inr other ↦ rw other (
      members-above g (start + 1) xs
        (is_grouped-above g x.group xs (ground (arith, h, other)) (ground (arith, h))))
]

-- Another group begins behind the run.
members-after_run :
    (g k start : ℕ) (xs : List SessionItem)
    → g < k
    → members k start xs ≡ members k (start + run_length g xs) (after_run g xs)
unfolding run_length after_run
members-after_run g k start [] lt = refl
members-after_run g k start (x ∷ xs) lt = elim (Bool-cases (x.group == g)) [
  | inl same ↦
      let later : (x.group == k) ≡ false = ground (arith, same, lt) in
      rw (same, later)
        (members-after_run g k (start + 1) xs lt
          ∙ ap (λ n. members k n (after_run g xs)) (omega arith))
  | inr other ↦ rw other (ap (λ n. members k n (x ∷ xs)) (omega arith))
]

map-run {ℓ} :
    {A : Type ℓ} (f : ℕ → A) (g : ℕ) (xs : List SessionItem)
    → map (λ y. f y.group) xs
      ≡ repeat (run_length g xs) (f g) ++ map (λ y. f y.group) (after_run g xs)
unfolding run_length after_run
map-run f g [] = refl
map-run f g (x ∷ xs) = elim (Bool-cases (x.group == g)) [
  | inl same ↦
      let e : x.group ≡ g = ground (arith, same) in
      rw same (ap₂ (λ a r. a ∷ r) (ap f e) (map-run f g xs))
  | inr other ↦ rw other refl
]

map-above {ℓ} :
    {A : Type ℓ} (f k : ℕ → A) (g : ℕ) (xs : List SessionItem)
    → above g xs ≡ true
    → ((h : ℕ) → g < h → f h ≡ k h)
    → map (λ y. f y.group) xs ≡ map (λ y. k y.group) xs
map-above f k g [] h e = refl
map-above f k g (x ∷ xs) h e =
    let (first, rest) = and-eq_true (ltb g x.group) (above g xs) h in
    rw (e x.group (ground (arith, first)), map-above f k g xs rest e) refl

length-after_run : (g : ℕ) (xs : List SessionItem) → length (after_run g xs) ≤ length xs
unfolding after_run
length-after_run g [] = omega arith
length-after_run g (x ∷ xs) = ground (arith, length-after_run g xs)

ne_of_lt : (g k : ℕ) → g < k → (g == k) ≡ false
ne_of_lt g k h = ground (arith, h)

members_page :
    (fuel start low : ℕ) (xs : List SessionItem)
    → length xs ≤ fuel
    → is_grouped low xs ≡ true
    → pages_from fuel start xs ≡ map (λ y. members y.group start xs) xs
unfolding pages_from
members_page zero start low [] le h = refl
members_page zero start low (x ∷ xs) le h = absurd (omega (arith, le))
members_page (suc fuel) start low [] le h = refl
members_page (suc fuel) start low (x ∷ xs) le h =
    let g = x.group in
    let n = suc (run_length g xs) in
    let rest = after_run g xs in
    let (risen, again) = after_run-above g xs (ground (arith, h)) in
    let shorter = length-after_run g xs in
    let later = members_page fuel (start + n) 0 rest (omega (arith, le, shorter)) again in
    let f = λ (k : ℕ). members k start (x ∷ xs) in
    let own : f g ≡ indices_from start n =
      rw (==_refl g) (ap (λ r. start ∷ r) (members-run g (start + 1) xs (ground (arith, h)))) in
    let others =
      map-above f (λ k. members k (start + n) rest) g rest risen
        (λ k lt.
          rw (ne_of_lt g k lt)
            (members-after_run g k (start + 1) xs lt ∙ ap (λ m. members k m rest) (omega arith))) in
    ap₂ (λ p q. p ∷ (repeat (run_length g xs) p ++ q)) (sym own) (later ∙ sym others)
    ∙ ap (λ q. f g ∷ q) (sym (map-run f g xs))

-- snapshotIndex turns until every item has a page, and where the groups do not descend, the page of an
-- item holds the indices of exactly the items of its group, in their order; more fuel changes nothing.
pub snapshot_index_lem :
    (items : List SessionItem) (fuel : ℕ)
    → is_grouped 0 items ≡ true
    → length items ≤ fuel
    → ((snapshot_index items).0 ≡ map (λ y. members y.group 0 items) items)
      × (pages_from fuel 0 items ≡ (snapshot_index items).0)
unfolding snapshot_index
snapshot_index_lem items fuel h le =
    let enough = members_page (length items) 0 0 items (omega arith) h in
    (enough, members_page fuel 0 0 items le h ∙ sym enough)
