-- ===== src/Quiz/Examples.antt =====
-- A small quiz, a live session and a leaderboard: tests, and the theorems at work.
use mathlib.Core.List.{Perm, Memᴰ}
use hquizlet_platform.Prelude.{
  ℕ, ◌≤◌, ◌≡◌, ◌⊎◌, refl, Bool, true, false, String, List, [], ◌∷◌, none, length, map, arith,
}
use hquizlet_platform.Prelude.Int.{ℤ, pos}
use hquizlet_platform.Quiz.Shuffle.{shuffle, shuffle_from, swap_at}
use hquizlet_platform.Quiz.Engine.{
  Flashcard, Item, learn, Outcome, ok, parse_mode, choices, card_items, page_items, generate,
}
use hquizlet_platform.Quiz.Engine.Options.{occurrences, choices_lem}
use hquizlet_platform.Quiz.Engine.Pages.{paged_ids, pages_share_cards}
use hquizlet_platform.Quiz.Marking.{
  Answer, CardResult, mark, evaluate, mark_answers, check_answers, expected_cards, card_by_id,
  test_choices,
}
use hquizlet_platform.Quiz.Live.Leaderboard.{
  LeaderboardEntry, leaderboard_sort, sort_rounds, sift, set_ranks,
}
use hquizlet_platform.Quiz.Live.Leaderboard.Sorted.{is_ordered, unranked, leaderboard_sort_lem}
use hquizlet_platform.Quiz.Live.Scores.{score_answer, time_bonus}
use hquizlet_platform.Quiz.Live.Sessions.{
  lobby, Question, Session, start_session, end_session, advance, update_session_cas,
  state_transition, Room, read, start, end, Reach, here, after,
}
use hquizlet_platform.Quiz.Live.Sessions.Commands.{is_placed, Moves}
use hquizlet_platform.Quiz.Live.Sessions.Runs.{opened, steps_are_transitions, open_question_exists}

abbrev card : ℤ → String → String → Flashcard
card k term definition = record {
  id = k;
  study_set_id = pos 1;
  term = term;
  definition = definition;
  starred = false;
  position = k;
}

abbrev cat : Flashcard
cat = card (pos 1) "cat" "mèo"

abbrev dog : Flashcard
dog = card (pos 2) "dog" "chó"

abbrev deck : List Flashcard
deck = cat ∷ dog ∷ card (pos 3) "bird" "chim" ∷ []

abbrev answer : ℤ → String → Answer
answer k text = record {
  flashcard_id = k;
  submitted = text;
  selected_index = none;
  pair_id = "";
  matched_flashcard_id = pos 0;
  attempts = pos 1;
  response_time_ms = pos 900;
}

-- Text that is one word in lower case.
abbrev one_word : String → List String
one_word s = s ∷ []

abbrev as_is : String → String
as_is s = s

abbrev result : ℤ → Bool → CardResult
result k right = record {
  flashcard_id = k;
  correct = right;
  attempts = pos 1;
  response_time_ms = pos 900;
}

abbrev entry : String → ℕ → ℕ → ℤ → LeaderboardEntry
entry name score right time = record {
  rank = 0;
  participant_id = name;
  display_name = name;
  total_score = score;
  correct_count = right;
  total_response_time = time;
}

abbrev board : List LeaderboardEntry
board = entry "an" 1000 1 (pos 50) ∷ entry "binh" 2500 2 (pos 70) ∷ entry "chi" 2500 2 (pos 60) ∷ []

board_sorted : map (λ e. e.display_name) (leaderboard_sort board) ≡ "chi" ∷ "binh" ∷ "an" ∷ []
unfolding leaderboard_sort sort_rounds sift set_ranks
board_sorted = refl

half_time : score_answer true (pos 5000) (pos 10000) ≡ 1250
unfolding score_answer time_bonus
half_time = refl

abbrev both : List Answer
both = answer (pos 1) "mèo" ∷ answer (pos 2) "mèo" ∷ []

one_right :
    evaluate one_word as_is deck "learn" 7 (pos 3) both
    ≡ ok (result (pos 1) true ∷ result (pos 2) false ∷ [])
unfolding evaluate mark_answers check_answers expected_cards card_by_id test_choices mark parse_mode
    generate page_items card_items shuffle shuffle_from swap_at
one_right = refl

choices_lem_example :
    (occurrences "mèo" (choices deck cat 9) ≡ 1)
    × ((v : String) → occurrences v (choices deck cat 9) ≤ 1)
    × (length (choices deck cat 9) ≤ 4)
choices_lem_example = choices_lem deck cat 9

pages_share_cards_example : Perm (paged_ids deck "learn" 7 2 2 0) (map (λ c. c.id) deck)
unfolding parse_mode
pages_share_cards_example =
    pages_share_cards deck "learn" learn 7 2 2 refl refl (omega arith) (omega arith) (omega arith)

leaderboard_sort_lem_example :
    (is_ordered (leaderboard_sort board) ≡ true)
    × Perm (map unranked (leaderboard_sort board)) (map unranked board)
    × (map (λ e. e.rank) (leaderboard_sort board) ≡ 1 ∷ 2 ∷ 3 ∷ [])
leaderboard_sort_lem_example = leaderboard_sort_lem board

abbrev question : Question
question = record {
  index = 0;
  flashcard_id = pos 1;
  term = "cat";
  definition = "";
  choices = "chó" ∷ "mèo" ∷ [];
  correct_index = 0;
}

abbrev session : Session
session = record {
  host_user_id = pos 4;
  status = lobby;
  question_duration_ms = pos 20000;
  current_question_idx = none;
  state_version = 1;
  question_snapshot = question ∷ [];
}

abbrev m1 : Room
m1 = record { row = session; reads = session ∷ [] }

abbrev m2 : Room
m2 = record m1 { row = (start_session session (pos 4) session).0 }

abbrev m3 : Room
m3 = record m2 { reads = m2.row ∷ m2.reads }

abbrev m4 : Room
m4 = record m3 { row = (end_session m2.row (pos 4) m3.row).0 }

run2 : Reach (opened session) m2
run2 = after (after here (read (opened session))) (start m1 session (pos 4) (Memᴰ.head refl))

run4 : Reach (opened session) m4
run4 = after (after run2 (read m2)) (end m3 m2.row (pos 4) (Memᴰ.head refl))

started : m2.row.state_version ≡ 2
unfolding start_session advance update_session_cas state_transition
started = refl

-- A second start from the copy of the lobby is refused.
stale_start : (start_session session (pos 4) m2.row).0 ≡ m2.row
unfolding start_session advance update_session_cas state_transition
stale_start = refl

steps_are_transitions_example : (m2.row ≡ session) ⊎ Moves session m2.row
steps_are_transitions_example =
    steps_are_transitions session m1 m2 refl (after here (read (opened session)))
      (start m1 session (pos 4) (Memᴰ.head refl))

open_question_exists_example :
    (is_placed m2.row ≡ true) × (m2.row.question_snapshot ≡ session.question_snapshot)
open_question_exists_example = open_question_exists session m2 refl run2

abbrev m5 : Room
m5 = record m4 { row = (start_session session (pos 4) m4.row).0 }

abbrev items_of : Outcome (List Item) → List Item
items_of (ok items) = items
items_of (Outcome.err _) = []

abbrev cards_asked : List Item
cards_asked = items_of (generate deck "test" 7 (pos 3) (pos 0))
