-- ===== src/Quiz/Live/Leaderboard.antt =====
-- LeaderboardSort of services/quiz/internal/live/model/model.go.
pub mod Sorted
use hquizlet_platform.Prelude.{
  ℕ, zero, suc, ◌+◌, Bool, ◌&&◌, ◌||◌, String, List, [], ◌∷◌, length, ltb, ◌==◌, if◌then◌else◌,
}
use hquizlet_platform.Prelude.Int.{ℤ, ltb_ℤ}

pub record LeaderboardEntry : Type 0 where
  pub rank : ℕ
  pub participant_id : String
  pub display_name : String
  pub total_score : ℕ
  pub correct_count : ℕ
  pub total_response_time : ℤ

-- The test of the inner loop: `b` goes before `a`.
abbrev pub overtakes : LeaderboardEntry → LeaderboardEntry → Bool
overtakes a b =
    ltb a.total_score b.total_score
    || (a.total_score == b.total_score && ltb a.correct_count b.correct_count)
    || (a.total_score == b.total_score
        && (a.correct_count == b.correct_count)
        && ltb_ℤ b.total_response_time a.total_response_time)

-- The inner loop, with `a` in the place i: what stands there at its end, and the places behind.
unfoldable pub sift :
    LeaderboardEntry → List LeaderboardEntry → LeaderboardEntry × List LeaderboardEntry
sift a [] = (a, [])
sift a (b ∷ entries) =
    let kept = sift a entries in
    let swapped = sift b entries in
    if overtakes a b then (swapped.0, a ∷ swapped.1) else (kept.0, b ∷ kept.1)

-- The outer loop, on the places that it has not passed; the number is the turns that are left.
unfoldable pub sort_rounds : ℕ → List LeaderboardEntry → List LeaderboardEntry
sort_rounds zero entries = entries
sort_rounds (suc n) [] = []
sort_rounds (suc n) (a ∷ entries) = let sifted = sift a entries in sifted.0 ∷ sort_rounds n sifted.1

-- The last loop, from the place `i` on.
unfoldable pub set_ranks : ℕ → List LeaderboardEntry → List LeaderboardEntry
set_ranks i [] = []
set_ranks i (a ∷ entries) = record a { rank = i + 1 } ∷ set_ranks (i + 1) entries

-- LeaderboardSort
unfoldable pub leaderboard_sort : List LeaderboardEntry → List LeaderboardEntry
unfolding sort_rounds set_ranks
leaderboard_sort entries = set_ranks 0 (sort_rounds (length entries) entries)
