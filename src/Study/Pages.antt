-- ===== src/Study/Pages.antt =====
-- snapshotIndex of services/study/internal/service/protected_quiz.go: which items share a page.
pub mod Groups
use hquizlet_platform.Prelude.{
  ℕ, zero, suc, ◌+◌, List, [], ◌∷◌, ◌++◌, map, length, ◌==◌, if◌then◌else◌,
}
use hquizlet_platform.Study.Model.{SessionItem, ManifestItem}

-- start, start + 1, ...: `n` indices.
abbrev pub indices_from : ℕ → ℕ → List ℕ
indices_from start zero = []
indices_from start (suc n) = start ∷ indices_from (start + 1) n

abbrev pub repeat {ℓ} : {A : Type ℓ} → ℕ → A → List A
repeat zero x = []
repeat (suc n) x = x ∷ repeat n x

-- The loop over `end`: how many of the items in front have the group.
unfoldable pub run_length : ℕ → List SessionItem → ℕ
run_length g [] = 0
run_length g (x ∷ xs) = let rest = run_length g xs in if x.group == g then suc rest else 0

-- The items behind that run.
unfoldable pub after_run : ℕ → List SessionItem → List SessionItem
after_run g [] = []
after_run g (x ∷ xs) = let rest = after_run g xs in if x.group == g then rest else x ∷ xs

-- The loop over `start`, with fuel for its turns: the pages of the items from that index on.
unfoldable pub pages_from : ℕ → ℕ → List SessionItem → List (List ℕ)
unfolding run_length after_run
pages_from zero start xs = []
pages_from (suc fuel) start [] = []
pages_from (suc fuel) start (x ∷ xs) =
    let n = suc (run_length x.group xs) in
    repeat n (indices_from start n) ++ pages_from fuel (start + n) (after_run x.group xs)

abbrev manifest_item : SessionItem → ManifestItem
manifest_item it = record { number = it.number; part = it.part; group = it.group }

-- snapshotIndex
unfoldable pub snapshot_index : List SessionItem → List (List ℕ) × List ManifestItem
unfolding pages_from
snapshot_index items = (pages_from (length items) 0 items, map manifest_item items)
