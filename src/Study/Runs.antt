-- ===== src/Study/Runs.antt =====
-- The study service as its requests run: quizzes started, played, deleted and swept, progress saved,
-- expired sessions and whole sets deleted, in any order and with any failures.
pub mod Played
pub mod Created
pub mod Invariant
pub mod Fates
pub mod Finality
pub mod Recorded
mod Examples
use hquizlet_platform.Prelude.{ℕ, ◌≤◌, ◌≡◌, Bool, false, String, List, [], ◌∷◌, Option, any, str_eq}
use hquizlet_platform.Prelude.Int.{ℤ}
use hquizlet_platform.Study.Model.{
  QuizQuestion, Snapshot, QuizSession, SessionView, StartInput, Outcome, ok, TextFns,
}
use hquizlet_platform.Study.Items.{Decoder}
use hquizlet_platform.Study.Play.{act}
use hquizlet_platform.Study.Progress.{SaveInput, save_progress}
use hquizlet_platform.Study.Store.{
  StudyDb, create_session, update_session, delete_session, put_snapshot, delete_unreferenced,
  drop_all_expired, delete_set,
}
use hquizlet_platform.Study.Start.{plan_start}

-- `used` are the ids that were drawn for sessions, 192 random bits each, which do not repeat.
pub record World : Type 0 where
  pub db : StudyDb
  pub clock : ℕ
  pub used : List String

abbrev pub init : World
init = record {
  db = record {
    sessions = [];
    learning = record { rows = []; events = []; next_id = 1 };
    snapshots = [];
  };
  clock = 0;
  used = [];
}

abbrev pub is_used : String → List String → Bool
is_used id = any (λ x. str_eq x id)

module _ (t : TextFns) (json : Decoder) where
  -- What Start has planned at the time `planned` from whatever it had read is put and created later,
  -- in two transactions. An action reads its content through a cache: `get` is any of its answers.
  -- Between the time of the transaction and the time that the service reads, the clock may go on.
  pub data Step : World → World → Type 0 where
    put :
        (m : World) (snap : Snapshot)
        → Step m (record m { db = record m.db { snapshots = put_snapshot snap m.db.snapshots } })
    create :
        (m : World) (fails : Bool) (hash id : String) (u k : ℕ) (i : StartInput)
        (questions : List QuizQuestion) (bytes : List (Option ℕ)) (planned : ℕ) (snap : Snapshot)
        (s : QuizSession) (v : SessionView)
        → plan_start t json hash id u k i questions bytes planned ≡ ok (snap, s, v)
        → is_used id m.used ≡ false
        → Step m (record m { db = (create_session fails m.clock s m.db).0; used = id ∷ m.used })
    play :
        (m : World) (fails : Bool) (get : String → Outcome Snapshot) (id : String) (u k : ℕ)
        (action : String) (index : ℤ) (answer : String) (at : ℕ) (inc : Bool)
        → m.clock ≤ at
        → Step m (record m {
          db =
              (update_session fails m.clock id u k
                (λ s. act t get s action index answer at inc)
                m.db).0;
          clock = at;
        })
    remove :
        (m : World) (fails : Bool) (id : String) (u : ℕ)
        → Step m (record m { db = (delete_session fails m.clock id u m.db).0 })
    sweep :
        (m : World) (before : ℕ)
        → Step m (record m {
          db = record m.db { snapshots = delete_unreferenced before m.db.sessions m.db.snapshots };
        })
    save :
        (m : World) (fails : Bool) (owned : Option Bool) (learner : Bool) (cards : Option (List ℤ))
        (u k : ℕ) (i : SaveInput)
        → Step m (record m {
          db = record m.db {
            learning = (save_progress fails m.db.learning owned learner cards u k i).0;
          };
        })
    purge :
        (m : World)
        → Step m
            (record m { db = record m.db { sessions = drop_all_expired m.clock m.db.sessions } })
    erase :
        (m : World) (fails visible : Bool) (k : ℕ)
        → Step m (record m { db = (delete_set fails visible k m.db).0 })
    tick : (m : World) (at : ℕ) → m.clock ≤ at → Step m (record m { clock = at })

  pub data Reach (m : World) : World → Type 0 where
    here : Reach m m
    next : {n k : World} → Reach m n → Step n k → Reach m k
