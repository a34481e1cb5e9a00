-- ===== src/Blockade/Conflicts.antt =====
-- blockade/conflicts.hpp and .cpp: from the brackets in which two paths conflict or run along each
-- other to the constraints on every participant's checkpoints.
pub mod Final
use rmf_traffic.Base.{
  ℕ, suc, ◌+◌, ◌-◌, ◌%◌, Bool, true, false, ◌&&◌, ◌||◌, not, Option, none, some, List, [], ◌∷◌,
  ◌++◌, map, ltb, ◌==◌, if◌then◌else◌,
}
use rmf_traffic.Base.Modular.{word}
use rmf_traffic.Base.Assoc.{Assoc, lookup, insert, emplace, lookup_or, map_values}
use rmf_traffic.Blockade.Timeline
use rmf_traffic.Blockade.Timeline.{Bracket, BracketPair, Timeline, complement}
use rmf_traffic.Blockade.Constraint.{
  Constraint, Constraints, BlockageEndCondition, has_reached, has_passed, blockage, passed, behind,
  all_of, any_of, nil, cons,
}

abbrev pub IndexToConstraint : Type 0
IndexToConstraint = Assoc Constraint

abbrev pub Blockers : Type 0
Blockers = Assoc IndexToConstraint

-- participant, then peer, then the participant's checkpoint
abbrev pub PeerToPeerBlockers : Type 0
PeerToPeerBlockers = Assoc Blockers

pub record AlignedBracketSet : Type 0 where
  pub whole_bracket : BracketPair
  pub segments : List BracketPair

pub record Brackets : Type 0 where
  pub conflicts : List BracketPair
  pub alignments : List AlignedBracketSet

pub record Alignment : Type 0 where
  pub timeline : Timeline
  pub index_to_caveats : Assoc (List ℕ)

abbrev pub PeerToPeerAlignment : Type 0
PeerToPeerAlignment = Assoc (Assoc (List Alignment))

pub record FinalConstraints : Type 0 where
  pub should_go : Blockers
  pub gridlock : Constraint

-- The last checkpoint's index; an empty path wraps.
abbrev pub last_index : ℕ → ℕ
last_index size = (size + word - 1) % word

-- The three parts of compute_blocker: where I wait, …
go_from : Bracket → ℕ
go_from me = if me.start == 0 then 0 else if me.include_start then me.start - 1 else me.start

-- … where the other may hold while I pass, …
blocker_hold_point : Bracket → ℕ → Bracket → Option ℕ
blocker_hold_point me my_path_size other =
    if ltb me.finish (last_index my_path_size) || not me.include_finish
    then if not other.include_start
      then some other.start
      else if ltb 0 other.start
      then some (other.start - 1)
      else none
    else none

-- … and what the other has to reach or to pass before I may go.
blocker_end : Bracket → ℕ → Option BlockageEndCondition
blocker_end other other_path_size =
    if other.include_finish
    then if ltb other.finish (last_index other_path_size)
      then some (record { index = other.finish; condition = has_passed })
      else none
    else some (record { index = other.finish; condition = has_reached })

compute_blocker : Bracket → ℕ → Bracket → ℕ → ℕ → ℕ × Constraint
unfolding go_from blocker_hold_point blocker_end
compute_blocker me my_path_size other other_path_size other_id = (
  go_from me,
  blockage other_id (blocker_hold_point me my_path_size other) (blocker_end other other_path_size),
)

-- The loop of compute_blockers. The maps' insert keeps an entry that is there.
blockers_from :
    List BracketPair
    → ℕ
    → ℕ
    → ℕ
    → ℕ
    → IndexToConstraint
    → IndexToConstraint
    → IndexToConstraint × IndexToConstraint
unfolding compute_blocker
blockers_from [] id_a a_path_size id_b b_path_size on_a on_b = (on_a, on_b)
blockers_from (p ∷ ps) id_a a_path_size id_b b_path_size on_a on_b =
    let (from_a, blocker_a) = compute_blocker p.a a_path_size p.b b_path_size id_b in
    let (from_b, blocker_b) = compute_blocker p.b b_path_size p.a a_path_size id_a in
    blockers_from ps id_a a_path_size id_b b_path_size (emplace from_a blocker_a on_a)
      (emplace from_b blocker_b on_b)

unfoldable pub compute_blockers :
    List BracketPair → ℕ → ℕ → ℕ → ℕ → IndexToConstraint × IndexToConstraint
unfolding blockers_from
compute_blockers ps id_a a_path_size id_b b_path_size =
    blockers_from ps id_a a_path_size id_b b_path_size [] []

-- get_alignment
caveats_from : List BracketPair → Assoc (List ℕ) → Assoc (List ℕ)
caveats_from [] m = m
caveats_from (p ∷ ps) m =
    let old = lookup_or p.a.start [] m in
    let with_start = if p.b.include_start then old ++ p.b.start ∷ [] else old in
    let with_finish = if p.b.include_finish then with_start ++ p.b.finish ∷ [] else with_start in
    caveats_from ps (insert p.a.start with_finish m)

get_alignment : List BracketPair → Alignment
unfolding caveats_from
get_alignment segments = record {
  timeline = Timeline.make segments;
  index_to_caveats = caveats_from segments [];
}

get_complement : List BracketPair → List BracketPair
unfolding complement
get_complement = map complement

unfoldable pub compute_alignments : List AlignedBracketSet → List Alignment × List Alignment
unfolding get_alignment get_complement
compute_alignments alignments = (
  map (λ s. get_alignment s.segments) alignments,
  map (λ s. get_alignment (get_complement s.segments)) alignments,
)
