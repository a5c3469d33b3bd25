-- ===== src/Quiz/Live/Answers/Totals.antt =====
-- The totals of the players against their answers.
use mathlib.Core.List.{Memᴰ}
use hquizlet_platform.Prelude.{
  ℕ, ◌≤◌, ◌≡◌, refl, sym, ap₂, Bool, true, false, ◌&&◌, String, List, [], ◌∷◌, All, arith, ◌==◌,
  count, Bool-cases, inl, inr, ◌++◌, ◌⊎◌,
}
use hquizlet_platform.Prelude.Int.{ℤ, pos}
use hquizlet_platform.Quiz.Live.Answers.{
  Participant, AnswerRow, Store, has_answered, is_taken, Write, add_totals, record_answer,
  score_sum, correct_sum, time_sum, has_answers, finalize, finalize_scores, StoreStep, join, submit,
  final, StoreReach, here, after,
}

-- The totals of a participant are the sums over its answers.
abbrev pub Matches : List AnswerRow → Participant → Type 0
Matches answers p =
    (p.total_score ≡ score_sum p.id answers)
    × (p.correct_count ≡ correct_sum p.id answers)
    × (p.total_response_time_ms ≡ time_sum p.id answers)

-- An answer of this player to this question.
abbrev pub is_answer : ℕ → ℕ → AnswerRow → Bool
is_answer p q a = (a.participant_id == p) && (a.question_index == q)

-- The points and the right answers of a participant are at most the sums over its answers, and a
-- participant with no answer has neither points nor response time.
abbrev pub AtMost : List AnswerRow → Participant → Type 0
AtMost answers p =
    (p.total_score ≤ score_sum p.id answers)
    × (p.correct_count ≤ correct_sum p.id answers)
    × (has_answers p.id answers ≡ false → p.total_response_time_ms ≡ pos 0)

record IsBounded (s : Store) : Type 0 where
  totals : All (AtMost s.answers) s.participants
  once : (p q : ℕ) → count (is_answer p q) s.answers ≤ 1

no_answers :
    (p : ℕ) (answers : List AnswerRow)
    → has_answers p answers ≡ false
    → (score_sum p answers ≡ 0) × (correct_sum p answers ≡ 0) × (time_sum p answers ≡ pos 0)
no_answers p [] h = (refl, refl, refl)
no_answers p (a ∷ answers) h = ground (arith, no_answers p answers)

add_totals-Matches :
    (a : AnswerRow) (answers : List AnswerRow) (ps : List Participant)
    → All (Matches answers) ps
    → All (Matches (a ∷ answers)) (add_totals a ps)
add_totals-Matches a answers [] h = tt
add_totals-Matches a answers (p ∷ ps) ((s, c, t), h) =
    (ground (arith, s, c, t), add_totals-Matches a answers ps h)

add_totals-AtMost :
    (a : AnswerRow) (answers : List AnswerRow) (ps : List Participant)
    → All (AtMost answers) ps
    → All (AtMost (a ∷ answers)) (add_totals a ps)
add_totals-AtMost a answers [] h = tt
add_totals-AtMost a answers (p ∷ ps) ((s, c, t), h) =
    (ground (arith, s, c, t), add_totals-AtMost a answers ps h)

-- The sums over older answers are at most those over all.
older_sums :
    (p : ℕ) (newer seen : List AnswerRow)
    → (score_sum p seen ≤ score_sum p (newer ++ seen))
      × (correct_sum p seen ≤ correct_sum p (newer ++ seen))
older_sums p [] seen = (omega arith, omega arith)
older_sums p (a ∷ newer) seen = ground (arith, older_sums p newer seen)

older_answers :
    (p : ℕ) (newer seen : List AnswerRow)
    → has_answers p (newer ++ seen) ≡ false
    → has_answers p seen ≡ false
older_answers p [] seen h = h
older_answers p (a ∷ newer) seen h = ground (arith, older_answers p newer seen)

finalize-AtMost :
    (newer seen : List AnswerRow) (ps : List Participant)
    → All (AtMost (newer ++ seen)) ps
    → All (AtMost (newer ++ seen)) (finalize seen ps)
finalize-AtMost newer seen [] h = tt
finalize-AtMost newer seen (p ∷ ps) ((s, c, t), h) = (
  ground (arith, s, c, t, older_sums p.id newer seen, older_answers p.id newer seen),
  finalize-AtMost newer seen ps h,
)

-- Sums over all the answers are right, whatever was there.
finalize-exact :
    (answers : List AnswerRow) (ps : List Participant)
    → All (AtMost answers) ps
    → All (Matches answers) (finalize answers ps)
finalize-exact answers [] h = tt
finalize-exact answers (p ∷ ps) ((s, c, t), h) =
    (ground (arith, s, c, t, no_answers p.id answers), finalize-exact answers ps h)

finalize-Matches :
    (answers : List AnswerRow) (ps : List Participant)
    → All (Matches answers) ps
    → finalize answers ps ≡ ps
finalize-Matches answers [] h = refl
finalize-Matches answers (p ∷ ps) ((s, c, t), h) =
    ground (arith, s, c, t, finalize-Matches answers ps h)

has_answered-count :
    (p q : ℕ) (answers : List AnswerRow)
    → has_answered p q answers ≡ false
    → count (is_answer p q) answers ≡ 0
has_answered-count p q [] h = refl
has_answered-count p q (a ∷ answers) h = ground (arith, has_answered-count p q answers)

same_player : (p q : ℕ) (a : AnswerRow) → is_answer p q a ≡ true → a.participant_id ≡ p
same_player p q a h = ground arith

same_question : (p q : ℕ) (a : AnswerRow) → is_answer p q a ≡ true → a.question_index ≡ q
same_question p q a h = ground arith

no_answers_zero :
    (p : ℕ) (answers : List AnswerRow)
    → has_answers p answers ≡ false
    → (0 ≡ score_sum p answers) × (0 ≡ correct_sum p answers) × (pos 0 ≡ time_sum p answers)
no_answers_zero p answers h = let (s, c, t) = no_answers p answers h in (sym s, sym c, sym t)

-- A session that nobody has joined.
abbrev pub empty_store : Store
empty_store = record { participants = []; answers = [] }

once_more :
    (a : AnswerRow) (answers : List AnswerRow)
    → has_answered a.participant_id a.question_index answers ≡ false
    → ((p q : ℕ) → count (is_answer p q) answers ≤ 1)
    → (p q : ℕ) → count (is_answer p q) (a ∷ answers) ≤ 1
once_more a answers h once p q = elim (Bool-cases (is_answer p q a)) [
  | inl own ↦ ground (
    arith,
    own,
    has_answered-count a.participant_id a.question_index answers h,
    ap₂ (λ x y. count (is_answer x y) answers) (same_player p q a own) (same_question p q a own),
  )
  | inr other ↦ ground (arith, other, once p q)
]

All-Memᴰ :
    (P : Participant → Type 0) (p : Participant) (ps : List Participant)
    → All P ps
    → Memᴰ p ps
    → P p
All-Memᴰ P p [] h m = elim m [ ]
All-Memᴰ P p (x ∷ ps) h (Memᴰ.head e) = rw e h.0
All-Memᴰ P p (x ∷ ps) h (Memᴰ.tail m) = All-Memᴰ P p ps h.1 m

module _ (json_text stored_text : ℤ → String) where
  -- A transaction leaves the store as it is, or adds an answer that meets no unique constraint, and its
  -- points to the totals.
  pub record_answer-cases :
      (s : Store) (a : AnswerRow) (lost : Bool) (write : Write)
      → ((record_answer json_text stored_text s a lost write).0 ≡ s)
        ⊎ ((is_taken a s.answers ≡ false)
            × ((record_answer json_text stored_text s a lost write).0
                ≡ record { participants = add_totals a s.participants; answers = a ∷ s.answers }))
  unfolding record_answer
  record_answer-cases s a lost write = ground arith

  record_answer-IsBounded :
      (s : Store) (a : AnswerRow) (lost : Bool) (write : Write)
      → IsBounded s
      → IsBounded (record_answer json_text stored_text s a lost write).0
  record_answer-IsBounded s a lost write i = elim (record_answer-cases s a lost write) [
    | inl same ↦ rw same i
    | inr (first, done) ↦ rw done (record {
      totals = add_totals-AtMost a s.answers s.participants i.totals;
      once = once_more a s.answers (ground (arith, first)) i.once;
    })
  ]

  record_answer-Matches :
      (s : Store) (a : AnswerRow) (lost : Bool) (write : Write)
      → All (Matches s.answers) s.participants
      → let t = (record_answer json_text stored_text s a lost write).0 in
        All (Matches t.answers) t.participants
  record_answer-Matches s a lost write h = elim (record_answer-cases s a lost write) [
    | inl same ↦ rw same h
    | inr (first, done) ↦ rw done (add_totals-Matches a s.answers s.participants h)
  ]

  Step-IsBounded :
      {waits : Bool} {s t : Store}
      → StoreStep json_text stored_text waits s t
      → IsBounded s
      → IsBounded t
  unfolding finalize_scores
  Step-IsBounded (join s p h) i = record {
    totals = ((omega arith, omega arith, λ none. refl), i.totals);
    once = i.once;
  }
  Step-IsBounded (submit s session closes now later player question selected key a lost write h) i =
      record_answer-IsBounded s a lost write i
  Step-IsBounded (final s newer seen e h) i = record {
    totals = rw e (finalize-AtMost newer seen s.participants (rw (sym e) i.totals));
    once = i.once;
  }

  Reach-IsBounded :
      {waits : Bool} {s t : Store}
      → StoreReach json_text stored_text waits s t
      → IsBounded s
      → IsBounded t
  Reach-IsBounded here i = i
  Reach-IsBounded (after r step) i = Step-IsBounded step (Reach-IsBounded r i)

  empty-IsBounded : IsBounded empty_store
  empty-IsBounded = record { totals = tt; once = λ p q. omega arith }

  Step-Matches :
      {s t : Store}
      → StoreStep json_text stored_text false s t
      → All (Matches s.answers) s.participants
      → All (Matches t.answers) t.participants
  unfolding finalize_scores
  Step-Matches (join s p h) m = (no_answers_zero p s.answers h, m)
  Step-Matches (submit s session closes now later player question selected key a lost write h) m =
      record_answer-Matches s a lost write m
  Step-Matches (final s [] seen e h) m = rw (finalize-Matches seen s.participants (rw (sym e) m)) m
  Step-Matches (final s (a ∷ newer) seen e h) m = cc

  Reach-Matches :
      {s t : Store}
      → StoreReach json_text stored_text false s t
      → All (Matches s.answers) s.participants
      → All (Matches t.answers) t.participants
  Reach-Matches here m = m
  Reach-Matches (after r step) m = Step-Matches step (Reach-Matches r m)

  -- However players join and answers come in, repeated, at once, or failing in the middle of a
  -- transaction, and however late FinalizeScores writes what it has read: no player ever has more
  -- points or more right answers than its stored answers earn, a player has one answer at most to a
  -- question, and a FinalizeScores that reads all the stored answers makes the score, the right answers
  -- and the response time of every player the sums over the player's answers.
  pub totals_within_answers :
      (waits : Bool) (s : Store) (p : Participant) (q : ℕ)
      → StoreReach json_text stored_text waits empty_store s
      → Memᴰ p s.participants
      → (p.total_score ≤ score_sum p.id s.answers)
        × (p.correct_count ≤ correct_sum p.id s.answers)
        × (count (is_answer p.id q) s.answers ≤ 1)
        × All (Matches s.answers) (finalize_scores s.answers s).participants
  unfolding finalize_scores
  totals_within_answers waits s p q r m =
      let i = Reach-IsBounded r empty-IsBounded in
      let (score, right, rest) = All-Memᴰ (AtMost s.answers) p s.participants i.totals m in
      (score, right, i.once p.id q, finalize-exact s.answers s.participants i.totals)

  -- However players join and answers come in, repeated, at once, or failing in the middle of a
  -- transaction: as long as no answer is stored between the reading and the writing of a
  -- FinalizeScores, the score, the right answers and the response time of every player are at any time
  -- the sums over the player's answers.
  pub totals_match_answers :
      (s : Store) (p : Participant)
      → StoreReach json_text stored_text false empty_store s
      → Memᴰ p s.participants
      → Matches s.answers p
  totals_match_answers s p r m =
      All-Memᴰ (Matches s.answers) p s.participants (Reach-Matches r tt) m
