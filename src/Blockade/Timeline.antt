-- ===== src/Blockade/Timeline.antt =====
-- blockade/conflicts.hpp and .cpp: brackets of checkpoints in which two paths meet, and the
-- timeline of an alignment, which tells whether a participant is behind another along it.
use rmf_traffic.Base.{
  ℕ, Bool, ◌&&◌, Option, none, some, List, [], ◌∷◌, ltb, leb, ◌==◌, if◌then◌else◌,
}
use rmf_traffic.Blockade.Range.{ReservedRange}

pub record Bracket : Type 0 where
  pub start : ℕ
  pub finish : ℕ
  pub include_start : Bool
  pub include_finish : Bool

-- A ConflictBracketPair or an AlignedBracketPair.
pub record BracketPair : Type 0 where
  pub a : Bracket
  pub b : Bracket

unfoldable pub complement : BracketPair → BracketPair
complement p = record { a = p.b; b = p.a }

pub data ComparisonType : Type 0 where
  equal_to less_than : ComparisonType

pub record Comparison : Type 0 where
  pub type : ComparisonType
  pub index : ℕ

-- std::map<std::size_t, Comparison, std::greater<std::size_t>>: the keys fall.
abbrev pub Timeline : Type 0
Timeline = List (ℕ × Comparison)

-- `_map[index] = comp`
pub assign : ℕ → Comparison → Timeline → Timeline
assign k c [] = (k, c) ∷ []
assign k c ((j, d) ∷ t) =
    if ltb k j then (j, d) ∷ assign k c t else if j == k then (k, c) ∷ t else (k, c) ∷ (j, d) ∷ t

-- What _insert_if_preferable makes of an entry that is there.
prefer : Comparison → Comparison → Comparison
prefer old comp = elim old.type [
  | equal_to ↦ old
  | less_than ↦ if ltb comp.index old.index then comp else old
]

insert_if_preferable : ℕ → Comparison → Timeline → Timeline
unfolding prefer
insert_if_preferable k c [] = (k, c) ∷ []
insert_if_preferable k c ((j, d) ∷ t) =
    if ltb k j
    then (j, d) ∷ insert_if_preferable k c t
    else if j == k
    then (j, prefer d c) ∷ t
    else (k, c) ∷ (j, d) ∷ t

-- The constructor's loop body, for the start and for the finish of a pair.
add_start : BracketPair → Timeline → Timeline
unfolding assign insert_if_preferable
add_start p t =
    if p.a.include_start && p.b.include_start
    then assign p.b.start (record { type = equal_to; index = p.a.start }) t
    else if p.a.include_start
    then insert_if_preferable p.b.start (record { type = less_than; index = p.a.start }) t
    else t

add_finish : BracketPair → Timeline → Timeline
unfolding assign insert_if_preferable
add_finish p t =
    if p.a.include_finish && p.b.include_finish
    then assign p.b.finish (record { type = equal_to; index = p.a.finish }) t
    else if p.b.include_finish
    then insert_if_preferable p.b.finish (record { type = less_than; index = p.a.finish }) t
    else t

make_from : List BracketPair → Timeline → Timeline
unfolding add_start add_finish
make_from [] t = t
make_from (p ∷ ps) t = make_from ps (add_finish p (add_start p t))

pub make : List BracketPair → Timeline
unfolding make_from
make alignments = make_from alignments []

-- `_map.lower_bound(a)` under std::greater: the first key that is at most a.
pub lower_bound : ℕ → Timeline → Option (ℕ × Comparison)
lower_bound a [] = none
lower_bound a ((k, c) ∷ t) = if ltb a k then lower_bound a t else some (k, c)

-- `_map.rbegin()`: the entry with the lowest key.
unfoldable pub lowest : Timeline → Option (ℕ × Comparison)
lowest [] = none
lowest (e ∷ []) = some e
lowest (e ∷ f ∷ t) = lowest (f ∷ t)

-- none is the runtime_error on an empty map.
unfoldable pub is_behind : Timeline → ReservedRange → ReservedRange → Option Bool
unfolding lower_bound lowest
is_behind t range_a range_b =
    let a = range_a.end in
    let b = range_b.begin in
    elim (lower_bound a t) [
      | some (k, c) ↦ some (leb c.index b)
      | none ↦ elim (lowest t) [ none ↦ none | some (k, c) ↦ some (ltb a k && leb c.index b) ]
    ]
