-- ===== src/Quiz/Live/Scores.antt =====
-- ScoreAnswer of services/quiz/internal/live/model/model.go.
use native.Mathlib.Nat.{div-zero, div-mul-le_self, le-div_iff_mul-le}
use hquizlet_platform.Prelude.{
  ℕ, zero, suc, ◌+◌, ◌*◌, ◌/◌, ◌%◌, ◌^◌, ◌≤◌, ◌<◌, ◌≡◌, Bool, true, false, not, ◌&&◌, arith, ltb,
  leb, if◌then◌else◌,
}
use hquizlet_platform.Prelude.Int.{ℤ, pos, pos_part, is_positive}

-- The bonus for `remaining` of `duration` milliseconds, both positive. The product is an int64: where
-- it wraps to a negative number, the quotient is at most 0 and the bonus is 0.
unfoldable pub time_bonus : ℕ → ℕ → ℕ
time_bonus remaining duration =
    let product = (500 * remaining) % 2 ^ 64 in
    let bonus = product / duration in
    if leb (2 ^ 63) product then 0 else if ltb 500 bonus then 500 else bonus

-- ScoreAnswer
unfoldable pub score_answer : Bool → ℤ → ℤ → ℕ
unfolding time_bonus
score_answer is_correct remaining duration =
    let bonus = time_bonus (pos_part remaining) (pos_part duration) in
    if not is_correct
    then 0
    else if is_positive duration && is_positive remaining
    then 1000 + bonus
    else 1000

-- A wrong answer scores nothing; a right one from 1000 to 1500, at any clock and any duration.
score_answer_lem :
    (r d : ℤ)
    → (score_answer false r d ≡ 0) × (1000 ≤ score_answer true r d) × (score_answer true r d ≤ 1500)
unfolding score_answer time_bonus
score_answer_lem r d = ground arith

div_mono : (r s d : ℕ) → r ≤ s → r / d ≤ s / d
div_mono r s zero h = omega (arith, div-zero r, div-zero s)
div_mono r s (suc d) h =
    (le-div_iff_mul-le {k = suc d} {x = r / suc d} {y = s} (omega arith)).1
      (omega (arith, div-mul-le_self r (suc d)))

time_bonus_mono : (r s d : ℕ) → r ≤ s → s < 2 ^ 53 → time_bonus r d ≤ time_bonus s d
unfolding time_bonus
time_bonus_mono r s d h k =
    let small : 500 * r < 2 ^ 63 = omega arith in
    let also : 500 * s < 2 ^ 63 = omega arith in
    ground (arith, div_mono (500 * r) (500 * s) d (omega arith))

-- Of two right answers to a question, the one with more time left does not score less, for the times
-- up to 2^53 milliseconds, where the product does not wrap.
pub score_answer_mono :
    (r s d : ℕ)
    → r ≤ s
    → s < 2 ^ 53
    → score_answer true (pos r) (pos d) ≤ score_answer true (pos s) (pos d)
unfolding score_answer
score_answer_mono r s d h k = ground (arith, time_bonus_mono r s d h k)
