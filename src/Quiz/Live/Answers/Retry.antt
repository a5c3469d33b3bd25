-- ===== src/Quiz/Live/Answers/Retry.antt =====
-- SubmitAnswer when a client sends an answer again.
use hquizlet_platform.Prelude.{
  ℕ, ◌≡◌, refl, ap, Bool, true, false, not, ◌||◌, String, ◌∷◌, Option, none, some, arith, ◌==◌, ltb,
  str_eq, eq_refl, eq_iff, ◌&&◌, Bool-cases, List, ==_refl, inl, inr, ◌⊎◌, if◌then◌else◌,
}
use hquizlet_platform.Prelude.Int.{ℤ, pos, negsuc, eq_ℤ}
use hquizlet_platform.Quiz.Live.Sessions.{Session}
use hquizlet_platform.Quiz.Live.Answers.{
  AnswerRow, Store, accepted, repeated, refused, conflict, Judged, ok, err, answer_by_key, judge,
  has_answered, is_taken, Write, record_answer, submit_answer, finalize_scores, StoreStep, join,
  submit, final, StoreReach, here, after, SubmitError,
}
use hquizlet_platform.Quiz.Live.Answers.Totals.{record_answer-cases}

Judged-cases : (j : Judged) → ((e : SubmitError) × (j ≡ err e)) ⊎ ((a : AnswerRow) × (j ≡ ok a))
Judged-cases (ok a) = inr (a, refl)
Judged-cases (err e) = inl (e, refl)

judge-fields :
    (s : Session) (closes : Option ℕ) (now later player : ℕ) (question selected : ℤ) (key : String)
    (a : AnswerRow)
    → judge s closes now later player question selected key ≡ ok a
    → (a.participant_id ≡ player)
      × (a.idempotency_key ≡ key)
      × (a.submitted_answer ≡ selected)
      × (eq_ℤ (pos a.question_index) question ≡ true)
unfolding judge
judge-fields s closes now later player question selected key a h = ground arith

-- What an accepted answer leaves behind: a row of the player under its key, of the same answer and
-- question, and an answer of the player to the question.
abbrev Kept : ℕ → ℤ → ℤ → String → AnswerRow → List AnswerRow → Type 0
Kept player question selected key a answers =
    (answer_by_key player key answers ≡ some a)
    × (a.submitted_answer ≡ selected)
    × (eq_ℤ (pos a.question_index) question ≡ true)
    × (has_answered player a.question_index answers ≡ true)

-- The first checks of a request.
abbrev Admitted : ℕ → Option ℕ → ℕ → Type 0
Admitted player claimed size =
    (elim claimed [ none ↦ false | some c ↦ not (c == player) ] ≡ false)
    × (((size == 0) || ltb 128 size) ≡ false)

same_question :
    (question : ℤ) (i j : ℕ) → eq_ℤ (pos i) question ≡ true → eq_ℤ (pos j) question ≡ true → i ≡ j
same_question (pos n) i j h k = ground arith
same_question (negsuc n) i j h k = cc

module _ (json_text stored_text : ℤ → String) where
  accepted-answers :
      (store : Store) (row a : AnswerRow) (lost : Bool) (write : Write)
      → (record_answer json_text stored_text store row lost write).1 ≡ accepted a
      → (row ≡ a)
        × ((record_answer json_text stored_text store row lost write).0.answers
            ≡ row ∷ store.answers)
  unfolding record_answer
  accepted-answers store row a lost write h = ground arith

  record_answer-taken :
      (store : Store) (row : AnswerRow) (lost : Bool) (write : Write)
      → has_answered row.participant_id row.question_index store.answers ≡ true
      → (record_answer json_text stored_text store row lost write).0 ≡ store
  unfolding record_answer
  record_answer-taken store row lost write h = ground (arith, h)

  module _ (player : ℕ) (question selected : ℤ) (key : String) (a : AnswerRow) where
    own_key :
        (row : AnswerRow) (answers : List AnswerRow)
        → answer_by_key player key answers ≡ some a
        → is_taken row answers ≡ false
        → ((row.participant_id == player) && str_eq row.idempotency_key key) ≡ false
    own_key row answers found free =
        elim (Bool-cases ((row.participant_id == player) && str_eq row.idempotency_key key)) [
          | inr other ↦ other
          | inl own ↦
              let same_player : row.participant_id ≡ player = ground arith in
              let same_key : row.idempotency_key ≡ key =
                (eq_iff row.idempotency_key key).0 (ground arith) in
              let there : answer_by_key row.participant_id row.idempotency_key answers ≡ some a =
                rw (same_player, same_key) found in
              ground (arith, free, there)
        ]

    record_answer-Kept :
        (store : Store) (row : AnswerRow) (lost : Bool) (write : Write)
        → Kept player question selected key a store.answers
        → Kept player question selected key a
            (record_answer json_text stored_text store row lost write).0.answers
    record_answer-Kept store row lost write (found, same, asked, answered) =
        elim (record_answer-cases json_text stored_text store row lost write) [
          | inl kept ↦ rw kept (found, same, asked, answered)
          | inr (free, stored) ↦ rw stored (
            ground (arith, found, own_key row store.answers found free),
            same,
            asked,
            ground (arith, answered),
          )
        ]

    Step-Kept :
        {waits : Bool} {s t : Store}
        → StoreStep json_text stored_text waits s t
        → Kept player question selected key a s.answers
        → Kept player question selected key a t.answers
    unfolding finalize_scores
    Step-Kept (join s p h) k = k
    Step-Kept (submit s session closes now later other asked chosen word row lost write h) k =
        record_answer-Kept s row lost write k
    Step-Kept (final s newer seen e h) k = k

    Reach-Kept :
        {waits : Bool} {s t : Store}
        → StoreReach json_text stored_text waits s t
        → Kept player question selected key a s.answers
        → Kept player question selected key a t.answers
    Reach-Kept here k = k
    Reach-Kept (after r step) k = Step-Kept step (Reach-Kept r k)

  module _ (player : ℕ) (claimed : Option ℕ) (question selected : ℤ) (key : String) (size : ℕ) where
    submit-Kept :
        (store : Store) (s : Session) (closes : Option ℕ) (now later : ℕ) (unread lost : Bool)
        (write : Write) (a : AnswerRow)
        → (submit_answer json_text stored_text store s closes now later unread lost write player
            claimed question selected key size).1
          ≡ accepted a
        → Admitted player claimed size
          × Kept player question selected key a
              (submit_answer json_text stored_text store s closes now later unread lost write player
                claimed question selected key size).0.answers
    unfolding submit_answer
    submit-Kept store s closes now later unread lost write a h =
        elim (Judged-cases (judge s closes now later player question selected key)) [
          | inl (e, refused_it) ↦ ground (arith, refused_it)
          | inr (row, judged) ↦ ground (
            arith,
            judged,
            judge-fields s closes now later player question selected key row judged,
            accepted-answers store row a lost write,
            ==_refl player,
            ==_refl a.question_index,
            eq_refl key,
          )
        ]

    again-store :
        (store : Store) (s : Session) (closes : Option ℕ) (now later : ℕ) (unread lost : Bool)
        (write : Write) (a : AnswerRow)
        → Kept player question selected key a store.answers
        → (submit_answer json_text stored_text store s closes now later unread lost write player
            claimed question selected key size).0
          ≡ store
    unfolding submit_answer
    again-store store s closes now later unread lost write a (found, same, asked, answered) =
        elim (Judged-cases (judge s closes now later player question selected key)) [
          | inl (e, refused_it) ↦ ground (arith, refused_it)
          | inr (row, judged) ↦
              let (own, keyed, chosen, asked_again) =
                judge-fields s closes now later player question selected key row judged in
              let taken : has_answered row.participant_id row.question_index store.answers ≡ true =
                rw
                  (
                    own,
                    same_question question row.question_index a.question_index asked_again asked,
                  )
                  answered in
              ground (arith, judged, record_answer-taken store row lost write taken)
        ]

    again-reply :
        (store : Store) (s : Session) (closes : Option ℕ) (now later : ℕ) (lost : Bool)
        (write : Write) (a : AnswerRow)
        → Admitted player claimed size
        → Kept player question selected key a store.answers
        → (submit_answer json_text stored_text store s closes now later false lost write player
            claimed question selected key size).1
          ≡ (if str_eq (stored_text selected) (json_text selected)
              then repeated a
              else refused conflict)
    unfolding submit_answer
    again-reply store s closes now later lost write a (known, sized)
          (found, same, asked, answered) =
        rw (submit_answer, known, sized, found)
          (ground (arith, asked, same, ap (λ t. str_eq (stored_text t) (json_text selected)) same))

    -- After an accepted answer, and after whatever else has happened in the session since, the same
    -- request sent again at whatever time and state of the session changes nothing, whichever of its
    -- lookups and writes fail: no answer is counted twice. Unless its lookup by the key fails, it is
    -- answered with the stored answer where the database gives the JSON text back as it was written,
    -- and with a conflict where it does not.
    pub retry_counts_once :
        (store t : Store) (s s' : Session) (closes closes' : Option ℕ) (now later now' later' : ℕ)
        (unread unread' lost lost' : Bool) (write write' : Write) (a : AnswerRow) (waits : Bool)
        → let first =
            submit_answer json_text stored_text store s closes now later unread lost write player
              claimed question selected key size in
          first.1 ≡ accepted a
          → StoreReach json_text stored_text waits first.0 t
          → let again =
              submit_answer json_text stored_text t s' closes' now' later' unread' lost' write'
                player claimed question selected key size in
            (again.0 ≡ t)
            × ((unread' ≡ true)
                ⊎ (again.1 ≡ (
                    if str_eq (stored_text selected) (json_text selected)
                    then repeated a
                    else refused conflict)))
    retry_counts_once store t s s' closes closes' now later now' later' unread unread' lost lost'
          write write' a waits h r =
        let (admitted, kept) = submit-Kept store s closes now later unread lost write a h in
        let k = Reach-Kept player question selected key a r kept in
        (
          again-store t s' closes' now' later' unread' lost' write' a k,
          elim (Bool-cases unread') [
            | inl failed ↦ inl failed
            | inr worked ↦
                inr (rw worked (again-reply t s' closes' now' later' lost' write' a admitted k))
          ],
        )
