-- ===== src/Blockade/Constraint.antt =====
-- blockade/Constraint.hpp and .cpp, and BehindConstraint of conflicts.cpp: when a participant may
-- reserve a checkpoint. The subclasses of Constraint are the constructors of one type.
pub mod Partial
use rmf_traffic.Base.{
  ℕ, Bool, true, false, ◌||◌, Option, none, some, List, [], ◌∷◌, ◌++◌, ltb, leb, ◌==◌,
  if◌then◌else◌,
}
use rmf_traffic.Base.Assoc.{lookup}
use rmf_traffic.Blockade.Range.{ReservedRange, State}
use rmf_traffic.Blockade.Timeline.{Timeline, is_behind}

pub data Condition : Type 0 where
  has_reached has_passed : Condition

pub record BlockageEndCondition : Type 0 where
  pub index : ℕ
  pub condition : Condition

mutual
  pub data Constraint : Type 0 where
    blockage : ℕ → Option ℕ → Option BlockageEndCondition → Constraint
    passed : ℕ → ℕ → Constraint
    always_valid : Constraint
    behind : ℕ → ℕ → Timeline → Constraint
    all_of any_of : Constraints → Constraint

  -- The unordered_set of a conjunction or a disjunction, in the order in which it is iterated.
  pub data Constraints : Type 0 where
    nil : Constraints
    cons : Constraint → Constraints → Constraints

-- BlockageConstraint::_evaluate_can_hold
pub can_hold : Option ℕ → ReservedRange → Bool
can_hold none range = false
can_hold (some point) range = leb range.end point

-- BlockageConstraint::_evaluate_has_reached
end_reached : Option BlockageEndCondition → ReservedRange → Bool
end_reached none range = false
end_reached (some e) range =
    if ltb range.begin e.index
    then false
    else if ltb e.index range.end
    then true
    else elim e.condition [ has_reached ↦ e.index == range.begin | has_passed ↦ false ]

-- BlockageConstraint::_evaluate
blockage_evaluate : Option ℕ → Option BlockageEndCondition → ReservedRange → Bool
unfolding can_hold end_reached
blockage_evaluate hold end range =
    if can_hold hold range then true else if end_reached end range then true else false

-- PassedConstraint::_evaluate
passed_evaluate : ℕ → ReservedRange → Bool
passed_evaluate index range =
    if ltb index range.begin
    then true
    else if ltb range.begin index
    then false
    else ltb index range.end

-- evaluate: none is the runtime_error where a participant is missing from the state.
unfoldable mutual
  unfolding blockage_evaluate passed_evaluate is_behind

  pub evaluate : Constraint → State → Option Bool
  evaluate (blockage by hold end) s = elim (lookup by s) [
    | none ↦ none
    | some range ↦ some (blockage_evaluate hold end range)
  ]
  evaluate (passed p index) s = elim (lookup p s) [
    | none ↦ none
    | some range ↦ some (passed_evaluate index range)
  ]
  evaluate always_valid s = some true
  evaluate (behind p q timeline) s = elim (lookup p s) [
    | none ↦ none
    | some a ↦ elim (lookup q s) [ none ↦ none | some b ↦ is_behind timeline a b ]
  ]
  evaluate (all_of cs) s = evaluate_all cs s
  evaluate (any_of nil) s = some true
  evaluate (any_of (cons c cs)) s = evaluate_any (cons c cs) s

  -- The loop of AndConstraint::evaluate
  pub evaluate_all : Constraints → State → Option Bool
  evaluate_all nil s = some true
  evaluate_all (cons c cs) s =
      let rest = evaluate_all cs s in
      elim (evaluate c s) [ none ↦ none | some false ↦ some false | some true ↦ rest ]

  -- The loop of OrConstraint::evaluate
  pub evaluate_any : Constraints → State → Option Bool
  evaluate_any nil s = some false
  evaluate_any (cons c cs) s =
      let rest = evaluate_any cs s in
      elim (evaluate c s) [ none ↦ none | some true ↦ some true | some false ↦ rest ]

-- partial_evaluate: none where it cannot tell. (Only BehindConstraint can throw here too, on an
-- empty timeline; that is none as well.)
unfoldable mutual
  unfolding blockage_evaluate passed_evaluate is_behind

  pub partial_evaluate : Constraint → State → Option Bool
  partial_evaluate (blockage by hold end) s = elim (lookup by s) [
    | none ↦ none
    | some range ↦ some (blockage_evaluate hold end range)
  ]
  partial_evaluate (passed p index) s = elim (lookup p s) [
    | none ↦ none
    | some range ↦ some (passed_evaluate index range)
  ]
  partial_evaluate always_valid s = some true
  partial_evaluate (behind p q timeline) s = elim (lookup p s) [
    | none ↦ none
    | some a ↦ elim (lookup q s) [ none ↦ none | some b ↦ is_behind timeline a b ]
  ]
  partial_evaluate (all_of cs) s = partial_all cs s
  partial_evaluate (any_of cs) s = partial_any cs s

  pub partial_all : Constraints → State → Option Bool
  partial_all nil s = none
  partial_all (cons c cs) s =
      let rest = partial_all cs s in
      elim (partial_evaluate c s) [ some false ↦ some false | some true ↦ rest | none ↦ rest ]

  pub partial_any : Constraints → State → Option Bool
  partial_any nil s = none
  partial_any (cons c cs) s =
      let rest = partial_any cs s in
      elim (partial_evaluate c s) [ some true ↦ some true | some false ↦ rest | none ↦ rest ]

-- dependencies: the participants that a constraint reads. (The sets of the code keep one copy.)
unfoldable mutual
  pub dependencies : Constraint → List ℕ
  dependencies (blockage by hold end) = by ∷ []
  dependencies (passed p index) = p ∷ []
  dependencies always_valid = []
  dependencies (behind p q timeline) = p ∷ q ∷ []
  dependencies (all_of cs) = dependencies_of cs
  dependencies (any_of cs) = dependencies_of cs

  -- AndConstraint::add and OrConstraint::add, for each constraint
  pub dependencies_of : Constraints → List ℕ
  dependencies_of nil = []
  dependencies_of (cons c cs) = dependencies c ++ dependencies_of cs
