-- ===== src/Quiz/Live/Leaderboard/Sorted.antt =====
-- LeaderboardSort sorts, keeps every entry, and ranks from 1.
use mathlib.Core.List.{Perm}
use mathlib.Core.List.Perm as P
use hquizlet_platform.Prelude.{
  ℕ, zero, suc, ltb, if◌then◌else◌, ◌+◌, ◌≡◌, refl, sym, ap, ap₂, ◌∙◌, Bool, true, false, not, ◌&&◌,
  List, [], ◌∷◌, length, all, map, arith, and-eq_true, length-perm, map-perm, all-perm, Bool-cases,
  inl, inr, ◌≤◌,
}
use hquizlet_platform.Prelude.Int.{ltb_ℤ}
use hquizlet_platform.Quiz.Live.Leaderboard.{
  LeaderboardEntry, overtakes, sift, sort_rounds, set_ranks, leaderboard_sort,
}

-- More points, then more right answers, then no more time.
abbrev pub at_least : LeaderboardEntry → LeaderboardEntry → Bool
at_least a b =
    if ltb b.total_score a.total_score
    then true
    else if ltb a.total_score b.total_score
    then false
    else if ltb b.correct_count a.correct_count
    then true
    else if ltb a.correct_count b.correct_count
    then false
    else not (ltb_ℤ b.total_response_time a.total_response_time)

-- Every entry is at least as good as all that stand behind it.
abbrev pub is_ordered : List LeaderboardEntry → Bool
is_ordered [] = true
is_ordered (a ∷ entries) = all (at_least a) entries && is_ordered entries

-- No entry stands in front of one that overtakes it.
abbrev is_settled : List LeaderboardEntry → Bool
is_settled [] = true
is_settled (a ∷ entries) = all (λ b. not (overtakes a b)) entries && is_settled entries

overtakes-at_least : (a b : LeaderboardEntry) → not (overtakes a b) ≡ at_least a b
overtakes-at_least a b = ground arith

all-at_least :
    (a : LeaderboardEntry) (entries : List LeaderboardEntry)
    → all (λ b. not (overtakes a b)) entries ≡ all (at_least a) entries
all-at_least a [] = refl
all-at_least a (b ∷ entries) = ap₂ (λ x y. x && y) (overtakes-at_least a b) (all-at_least a entries)

is_settled-is_ordered : (entries : List LeaderboardEntry) → is_settled entries ≡ is_ordered entries
is_settled-is_ordered [] = refl
is_settled-is_ordered (a ∷ entries) =
    ap₂ (λ x y. x && y) (all-at_least a entries) (is_settled-is_ordered entries)

-- An entry without its rank.
abbrev pub unranked : LeaderboardEntry → LeaderboardEntry
unranked e = record e { rank = 0 }

overtakes_trans :
    (a b c : LeaderboardEntry)
    → overtakes a b ≡ false
    → overtakes b c ≡ false
    → overtakes a c ≡ false
overtakes_trans a b c h k = ground arith

not-true : (b : Bool) → not b ≡ true → b ≡ false
not-true true h = sym h
not-true false h = refl

all_trans :
    (m a : LeaderboardEntry) (entries : List LeaderboardEntry)
    → overtakes m a ≡ false
    → all (λ b. not (overtakes a b)) entries ≡ true
    → all (λ b. not (overtakes m b)) entries ≡ true
all_trans m a [] h k = refl
all_trans m a (b ∷ entries) h k =
    let (first, rest) =
      and-eq_true (not (overtakes a b)) (all (λ c. not (overtakes a c)) entries) k in
    ap₂ (λ x y. x && y) (ap not (overtakes_trans m a b h (not-true (overtakes a b) first)))
      (all_trans m a entries h rest)

overtakes-asym : (a b : LeaderboardEntry) → overtakes a b ≡ true → overtakes b a ≡ false
overtakes-asym a b h = ground arith

overtakes_irrefl : (a : LeaderboardEntry) → overtakes a a ≡ false
overtakes_irrefl a = ground arith

sift-perm :
    (a : LeaderboardEntry) (entries : List LeaderboardEntry)
    → Perm ((sift a entries).0 ∷ (sift a entries).1) (a ∷ entries)
unfolding sift
sift-perm a [] = P.rfl
sift-perm a (b ∷ entries) = elim (Bool-cases (overtakes a b)) [
  | inl ahead ↦
      rw (sift, ahead)
        (P.trans (P.swap a (sift b entries).0 (sift b entries).1) (P.cons a (sift-perm b entries)))
  | inr behind ↦
      rw (sift, behind)
        (P.trans (P.swap b (sift a entries).0 (sift a entries).1)
          (P.trans (P.cons b (sift-perm a entries)) (P.swap a b entries)))
]

-- What ends in front overtakes, or equals, what was there and all that stands behind.
sift-first :
    (a : LeaderboardEntry) (entries : List LeaderboardEntry)
    → (overtakes (sift a entries).0 a ≡ false)
      × (all (λ b. not (overtakes (sift a entries).0 b)) (sift a entries).1 ≡ true)
unfolding sift
sift-first a [] = (overtakes_irrefl a, refl)
sift-first a (b ∷ entries) = elim (Bool-cases (overtakes a b)) [
  | inl ahead ↦
      let (below, rest) = sift-first b entries in
      let first = overtakes_trans (sift b entries).0 b a below (overtakes-asym a b ahead) in
      rw (sift, ahead) (first, ap₂ (λ x y. x && y) (ap not first) rest)
  | inr behind ↦
      let (below, rest) = sift-first a entries in
      let first = overtakes_trans (sift a entries).0 a b below behind in
      rw (sift, behind) (below, ap₂ (λ x y. x && y) (ap not first) rest)
]

sift-length :
    (a : LeaderboardEntry) (entries : List LeaderboardEntry)
    → length (sift a entries).1 ≡ length entries
sift-length a entries = omega (arith, length-perm (sift-perm a entries))

sort_rounds-perm : (n : ℕ) (entries : List LeaderboardEntry) → Perm (sort_rounds n entries) entries
unfolding sort_rounds
sort_rounds-perm zero entries = P.rfl
sort_rounds-perm (suc n) [] = P.rfl
sort_rounds-perm (suc n) (a ∷ entries) =
    P.trans (P.cons (sift a entries).0 (sort_rounds-perm n (sift a entries).1))
      (sift-perm a entries)

sort_rounds-ordered :
    (n : ℕ) (entries : List LeaderboardEntry)
    → length entries ≤ n
    → is_settled (sort_rounds n entries) ≡ true
unfolding sort_rounds
sort_rounds-ordered zero [] h = refl
sort_rounds-ordered zero (a ∷ entries) h = absurd (omega arith)
sort_rounds-ordered (suc n) [] h = refl
sort_rounds-ordered (suc n) (a ∷ entries) h =
    let (m, rest) = sift a entries in
    ap₂ (λ x y. x && y)
      (all-perm (λ b. not (overtakes m b)) (sort_rounds-perm n rest) ∙ (sift-first a entries).1)
      (sort_rounds-ordered n rest (omega (arith, sift-length a entries)))

set_ranks-all :
    (m : LeaderboardEntry) (i : ℕ) (entries : List LeaderboardEntry)
    → all (λ b. not (overtakes m b)) (set_ranks i entries) ≡ all (λ b. not (overtakes m b)) entries
unfolding set_ranks
set_ranks-all m i [] = refl
set_ranks-all m i (a ∷ entries) =
    ap (λ r. not (overtakes m a) && r) (set_ranks-all m (i + 1) entries)

set_ranks-ordered :
    (i : ℕ) (entries : List LeaderboardEntry)
    → is_settled (set_ranks i entries) ≡ is_settled entries
unfolding set_ranks
set_ranks-ordered i [] = refl
set_ranks-ordered i (a ∷ entries) =
    ap₂ (λ x y. x && y) (set_ranks-all a (i + 1) entries) (set_ranks-ordered (i + 1) entries)

set_ranks-unranked :
    (i : ℕ) (entries : List LeaderboardEntry)
    → map unranked (set_ranks i entries) ≡ map unranked entries
unfolding set_ranks
set_ranks-unranked i [] = refl
set_ranks-unranked i (a ∷ entries) = ap (λ r. unranked a ∷ r) (set_ranks-unranked (i + 1) entries)

-- The numbers from `i + 1` on.
abbrev pub ranks_from : ℕ → ℕ → List ℕ
ranks_from i zero = []
ranks_from i (suc n) = (i + 1) ∷ ranks_from (i + 1) n

set_ranks-ranks :
    (i : ℕ) (entries : List LeaderboardEntry)
    → map (λ e. e.rank) (set_ranks i entries) ≡ ranks_from i (length entries)
unfolding set_ranks
set_ranks-ranks i [] = refl
set_ranks-ranks i (a ∷ entries) = ap (λ r. (i + 1) ∷ r) (set_ranks-ranks (i + 1) entries)

-- LeaderboardSort puts no entry in front of one with a higher score, or the same score and more right
-- answers, or the same of both and less time; it keeps every entry but for the rank, and the ranks are
-- 1, 2, 3 and so on.
pub leaderboard_sort_lem :
    (entries : List LeaderboardEntry)
    → (is_ordered (leaderboard_sort entries) ≡ true)
      × Perm (map unranked (leaderboard_sort entries)) (map unranked entries)
      × (map (λ e. e.rank) (leaderboard_sort entries) ≡ ranks_from 0 (length entries))
unfolding leaderboard_sort
leaderboard_sort_lem entries =
    let sorted = sort_rounds (length entries) entries in
    let mixed = sort_rounds-perm (length entries) entries in
    (
      sym (is_settled-is_ordered (set_ranks 0 sorted))
          ∙ set_ranks-ordered 0 sorted
          ∙ sort_rounds-ordered (length entries) entries (omega arith),
      rw (set_ranks-unranked 0 sorted) (map-perm unranked mixed),
      set_ranks-ranks 0 sorted ∙ ap (ranks_from 0) (length-perm mixed),
    )
