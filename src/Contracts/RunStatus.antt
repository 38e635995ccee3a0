-- ===== src/Contracts/RunStatus.antt =====
-- The run state machine of contracts/enums.py: the statuses, the transition table and its test.
pub mod Paths
mod Tests
use asymmetric_committee.Base.{
  ℕ, Bool, false, Option, none, some, List, [], ◌∷◌, any, if◌then◌else◌, ◌||◌, ◌==◌,
}

pub data RunStatus : Type 0 where
  pending ingest_ok features_ok gated agents_ok committed anchored executed scored : RunStatus
  failed partial : RunStatus

-- The members of the enumeration are told apart by their position.
abbrev pub position : RunStatus → ℕ
position pending = 0
position ingest_ok = 1
position features_ok = 2
position gated = 3
position agents_ok = 4
position committed = 5
position anchored = 6
position executed = 7
position scored = 8
position failed = 9
position partial = 10

abbrev pub same : RunStatus → RunStatus → Bool
same a b = position a == position b

abbrev pub member : RunStatus → List RunStatus → Bool
member s = any (same s)

-- `_RUN_PATH`
pub run_path : List RunStatus
run_path =
    pending ∷ ingest_ok ∷ features_ok ∷ gated ∷ agents_ok ∷ committed ∷ anchored ∷ executed ∷ scored
    ∷ []

-- `TERMINAL_RUN_STATUSES`
pub terminal_run_statuses : List RunStatus
terminal_run_statuses = scored ∷ failed ∷ partial ∷ []

-- The entry that the comprehension over `pairwise(_RUN_PATH)` makes for `s`, if it makes one.
pub path_entry : RunStatus → List RunStatus → Option (List RunStatus)
path_entry s [] = none
path_entry s (_ ∷ []) = none
path_entry s (cur ∷ nxt ∷ rest) =
    let later = path_entry s (nxt ∷ rest) in
    if same s cur then some (nxt ∷ failed ∷ partial ∷ []) else later

-- `RUN_TRANSITIONS[s]`: a later entry of the dict display replaces an earlier one; every status
-- has an entry, so the last line is not reached.
pub run_transitions : RunStatus → List RunStatus
unfolding run_path terminal_run_statuses path_entry
run_transitions s =
    if member s terminal_run_statuses
    then []
    else if same s anchored
    then executed ∷ scored ∷ failed ∷ partial ∷ []
    else elim (path_entry s run_path) [ some next ↦ next | none ↦ [] ]

unfoldable pub can_transition : RunStatus → RunStatus → Bool
unfolding run_transitions
can_transition src dst = member dst (run_transitions src)
