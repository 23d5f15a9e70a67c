-- ===== src/Csv/Manifest.antt =====
-- The manifest of a staged table lists every row that was inserted, once.
use quickhouse.Prelude.{ℕ, ◌+◌, ◌≤◌, ◌≡◌, Bool, none, [], All}
use quickhouse.Prelude.Text.{Text}
use quickhouse.Csv.Parts.{StagedState, all_idle}
use quickhouse.Csv.Split.{count_parts, times, AtMost, Exactly}

module _ {Row : Type 0} (max_rows : ℕ) where
  -- The parts of a staged table: the open ones have no more rows than allowed, the closed ones just
  -- as many, and no number is given twice.
  pub record IsStaged (st : StagedState Row) : Type 0 where
    pub unfinished : st.finished ≡ none
    pub open_fit : All (AtMost max_rows) (all_idle st.idle)
    pub closed_full : All (Exactly max_rows) st.parts
    pub once : (k : ℕ) → times k (all_idle st.idle) + times k st.parts ≤ 1
    pub unused : (k : ℕ) → st.next_part ≤ k → times k (all_idle st.idle) + times k st.parts ≡ 0

  abbrev pub stored : (Row → Bool) → StagedState Row → ℕ
  stored test st = count_parts test (all_idle st.idle) + count_parts test st.parts

-- A staged table as it is created.
abbrev pub empty_table : {Row : Type 0} → StagedState Row
empty_table = record { idle = []; parts = []; next_part = 0; finished = none }
