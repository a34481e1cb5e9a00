-- ===== src/Schedule/Progress.antt =====
-- schedule/Progress.cpp and internal_Progress.hpp: the checkpoints of its routes that a participant
-- has reached, and the progress that arrives before the plan that it is about.
pub mod Latest
use rmf_traffic.Base.{
  ℕ, zero, suc, ◌+◌, ◌-◌, ◌%◌, Bool, true, false, Option, none, some, List, [], ◌∷◌, ◌++◌, length,
  get_or, set, replicate, ltb, if◌then◌else◌,
}
use rmf_traffic.Base.Modular.{Modular, word}
use rmf_traffic.Base.Assoc.{Assoc, insert, lookup_or}

pub record Progress : Type 0 where
  pub version : ℕ
  pub reached_checkpoints : List ℕ

abbrev pub no_progress : Progress
no_progress = record { version = 0; reached_checkpoints = [] }

-- `reached_checkpoints.resize(size, 0)`, which does not shrink
unfoldable pub resized : ℕ → List ℕ → List ℕ
resized size reached =
    if ltb (length reached) size then reached ++ replicate (size - length reached) 0 else reached

unfoldable pub resize : ℕ → Progress → Progress
unfolding resized
resize size p = record p { reached_checkpoints = resized size p.reached_checkpoints }

-- The version after an update
new_version_of : ℕ → Option ℕ → ℕ
new_version_of version none = (version + 1) % word
new_version_of version (some v) = if ltb version v then v else version

-- The progress, and whether it is new.
unfoldable pub update : ℕ → ℕ → Option ℕ → Progress → Progress × Bool
unfolding resized new_version_of
update route checkpoint version p =
    let reached = resized (route + 1) p.reached_checkpoints in
    if ltb (get_or reached route 0) checkpoint
    then (
      record {
        version = new_version_of p.version version;
        reached_checkpoints = set reached route checkpoint;
      },
      true,
    )
    else (record p { reached_checkpoints = reached }, false)

-- The progress of each plan
abbrev pub ProgressBuffer : Type 0
ProgressBuffer = Assoc Progress

unfoldable pub buff : ℕ → ℕ → ℕ → Option ℕ → ProgressBuffer → ProgressBuffer
unfolding update
buff plan route checkpoint version buffer =
    insert plan (update route checkpoint version (lookup_or plan no_progress buffer)).0 buffer

module _ (m : Modular) where
  -- The loop of pull, which erases the plans up to this one
  unfoldable pub erase_through : ℕ → ProgressBuffer → ProgressBuffer
  erase_through plan [] = []
  erase_through plan ((k, p) ∷ buffer) =
      let rest = erase_through plan buffer in
      if m.less_than_or_equal k plan then rest else (k, p) ∷ rest

  unfoldable pub pull : ℕ → ℕ → ProgressBuffer → Progress × ProgressBuffer
  unfolding resize erase_through
  pull plan size buffer =
      let found = lookup_or plan no_progress buffer in
      (resize size found, erase_through plan (insert plan found buffer))
