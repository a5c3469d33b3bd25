-- ===== src/Quiz/Live/Questions.antt =====
-- The questions that CreateSession of services/quiz/internal/live/service/service.go freezes.
pub mod Frozen
use hquizlet_platform.Prelude.{ℕ, ◌+◌, String, List, [], ◌∷◌, str_eq, if◌then◌else◌}
use hquizlet_platform.Quiz.Engine.{Item}
use hquizlet_platform.Quiz.Live.Sessions.{Question}

-- The loop that looks for the right choice, from the index `ci` on; CorrectIndex stays 0 without one.
unfoldable pub correct_choice : String → ℕ → List String → ℕ
correct_choice definition ci [] = 0
correct_choice definition ci (c ∷ cs) =
    let later = correct_choice definition (ci + 1) cs in if str_eq c definition then ci else later

-- The snapshot of the items, from the index `i` on.
unfoldable pub freeze : ℕ → List Item → List Question
unfolding correct_choice
freeze i [] = []
freeze i (item ∷ items) =
    record {
      index = i;
      flashcard_id = item.flashcard_id;
      term = item.term;
      definition = item.definition;
      choices = item.choices;
      correct_index = correct_choice item.definition 0 item.choices;
    }
    ∷ freeze (i + 1) items
