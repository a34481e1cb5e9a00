-- ===== src/Blockade/Gridlock.antt =====
-- blockade/Constraint.cpp, compute_gridlock_constraint: the search for chains of blockers in which
-- each waits for the next, back to the first.
pub mod Search
pub mod Expand
use rmf_traffic.Base.{
  ℕ, zero, suc, ◌+◌, ◌*◌, Bool, true, false, ◌&&◌, Option, none, some, List, [], ◌∷◌, ◌++◌, length,
  ◌==◌, if◌then◌else◌,
}
use rmf_traffic.Base.Assoc.{Assoc, lookup_or, insert}
use rmf_traffic.Blockade.Range.{ReservedRange, State}
use rmf_traffic.Blockade.Constraint.{
  Constraint, Constraints, always_valid, all_of, any_of, nil, cons, partial_evaluate, dependencies,
}
use rmf_traffic.Blockade.Conflicts.{IndexToConstraint, Blockers}

pub record Blocker : Type 0 where
  pub participant : ℕ
  pub index : ℕ
  pub constraint : Constraint

-- Blocker::operator==
abbrev pub same_blocker : Blocker → Blocker → Bool
same_blocker b c = (b.participant == c.participant) && (b.index == c.index)

-- A set of pairs: Cache has them as a map to sets.
abbrev pub Cache : Type 0
Cache = List (ℕ × ℕ)

pub is_visited : ℕ → ℕ → Cache → Bool
is_visited p i [] = false
is_visited p i ((q, j) ∷ cache) = if (q == p) && (j == i) then true else is_visited p i cache

-- ancestors is the chain of the parent pointers.
pub record GridlockNode : Type 0 where
  pub blocker : Blocker
  pub ancestors : List Blocker
  pub visited : Cache

-- The constraints from the head of the chain back to the target; none is the null pointer at
-- the chain's end.
pub back_to : Blocker → List Blocker → Option Constraints
back_to target [] = none
back_to target (b ∷ chain) =
    let rest = back_to target chain in
    if same_blocker target b
    then some nil
    else elim rest [ none ↦ none | some cs ↦ some (cons b.constraint cs) ]

pub loop_constraint : GridlockNode → Option Constraint
unfolding back_to
loop_constraint node = elim (back_to node.blocker node.ancestors) [
  | none ↦ none
  | some cs ↦ some (any_of (cons node.blocker.constraint cs))
]

-- The blockers at the checkpoints of a participant, and of all of them
points_of : ℕ → IndexToConstraint → List Blocker
points_of p [] = []
points_of p ((i, c) ∷ points) =
    record { participant = p; index = i; constraint = c } ∷ points_of p points

unfoldable pub blockers_of : Blockers → List Blocker
unfolding points_of
blockers_of [] = []
blockers_of ((p, points) ∷ more) = points_of p points ++ blockers_of more

is_member : ℕ → List ℕ → Bool
is_member x [] = false
is_member x (y ∷ ys) = if y == x then true else is_member x ys

-- The first loop, over the blockers: the queue's last entry is at its head, …
unfoldable pub start_queue : List Blocker → List GridlockNode → List GridlockNode
start_queue [] queue = queue
start_queue (b ∷ bs) queue =
    start_queue bs
      (record { blocker = b; ancestors = []; visited = (b.participant, b.index) ∷ [] } ∷ queue)

-- … and the blockers that depend on each participant.
pub add_dependent : Blocker → List ℕ → Assoc (List Blocker) → Assoc (List Blocker)
add_dependent b [] m = m
add_dependent b (d ∷ ds) m = add_dependent b ds (insert d (lookup_or d [] m ++ b ∷ []) m)

-- A set keeps one copy.
pub distinct : List ℕ → List ℕ
unfolding is_member
distinct [] = []
distinct (x ∷ xs) = let rest = distinct xs in if is_member x xs then rest else x ∷ rest

pub dependents_of : List Blocker → Assoc (List Blocker) → Assoc (List Blocker)
unfolding add_dependent distinct
dependents_of [] m = m
dependents_of (b ∷ bs) m =
    dependents_of bs (add_dependent b (distinct (dependencies b.constraint)) m)

-- The loop over the blockers that depend on the top's participant. The queue and the constraints
-- found so far are passed on; none where loop_constraint is.
pub expand :
    GridlockNode
    → State
    → List Blocker
    → List GridlockNode
    → List Constraint
    → Option (List GridlockNode × List Constraint)
unfolding is_visited loop_constraint
expand top test_state [] queue found = some (queue, found)
expand top test_state (dep ∷ deps) queue found =
    let seen = is_visited dep.participant dep.index top.visited in
    let new_visited = if seen then top.visited else (dep.participant, dep.index) ∷ top.visited in
    let next : GridlockNode = record {
      blocker = dep;
      ancestors = top.blocker ∷ top.ancestors;
      visited = new_visited;
    } in
    let unblocked = expand top test_state deps queue found in
    let pushed = expand top test_state deps (next ∷ queue) found in
    elim (partial_evaluate dep.constraint test_state) [
      | none ↦ unblocked
      | some true ↦ unblocked
      | some false ↦
          if seen
          then elim (loop_constraint next) [
            | none ↦ none
            | some c ↦ expand top test_state deps queue (found ++ c ∷ [])
          ]
          else pushed
    ]

-- The loop over the queue. None is also where the fuel ends.
unfoldable pub search :
    ℕ
    → Assoc (List Blocker)
    → Cache
    → List GridlockNode
    → List Constraint
    → Option (List Constraint)
unfolding expand
search zero dependents expanded queue found = none
search (suc f) dependents expanded [] found = some found
search (suc f) dependents expanded (top ∷ queue) found =
    let p = top.blocker.participant in
    let i = top.blocker.index in
    if is_visited p i expanded
    then search f dependents expanded queue found
    else elim (expand top ((p, record { begin = i; end = i }) ∷ []) (lookup_or p [] dependents)
        queue found) [
          | none ↦ none
          | some (queue', found') ↦ search f dependents ((p, i) ∷ expanded) queue' found'
        ]

unfoldable pub number_of_dependencies : List Blocker → ℕ
unfolding distinct
number_of_dependencies [] = 0
number_of_dependencies (b ∷ bs) =
    length (distinct (dependencies b.constraint)) + number_of_dependencies bs

-- Each blocker is expanded once, and no expansion adds more to the queue than there are
-- dependencies.
abbrev pub enough : List Blocker → ℕ
enough bs = suc (length bs * suc (number_of_dependencies bs) + length bs)

unfoldable pub gridlocks : Blockers → Option (List Constraint)
unfolding search blockers_of start_queue dependents_of number_of_dependencies
gridlocks blockers =
    let bs = blockers_of blockers in
    search (enough bs) (dependents_of bs []) [] (start_queue bs []) []

unfoldable pub to_constraints : List Constraint → Constraints
to_constraints [] = nil
to_constraints (c ∷ cs) = cons c (to_constraints cs)

-- `none` does not come up.
unfoldable pub compute_gridlock_constraint : Blockers → Constraint
unfolding gridlocks to_constraints
compute_gridlock_constraint blockers = elim (gridlocks blockers) [
  | none ↦ always_valid
  | some [] ↦ always_valid
  | some (c ∷ cs) ↦ all_of (to_constraints (c ∷ cs))
]
