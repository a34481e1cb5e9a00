-- ===== src/Blockade/Gridlock/Expand.antt =====
-- One step of the search: the nodes that it adds, and the chains of their parents.
use rmf_traffic.Base.{
  ℕ, suc, ◌+◌, ◌*◌, ◌≤◌, ◌<◌, ◌≡◌, ◌≢◌, sym, subst, ◌⊎◌, inl, inr, Bool, true, false, ◌&&◌, Option,
  none, some, List, [], ◌∷◌, ◌++◌, length, All, arith, Option-cases, Bool-cases, times_step, ◌==◌,
  if◌then◌else◌,
}
use rmf_traffic.Blockade.Range.{State}
use rmf_traffic.Blockade.Constraint.{Constraint, partial_evaluate}
use rmf_traffic.Blockade.Gridlock.{
  Blocker, GridlockNode, is_visited, back_to, loop_constraint, expand,
}

-- Whether a list of blockers has one at checkpoint i of participant p.
unfoldable pub has : ℕ → ℕ → List Blocker → Bool
has p i [] = false
has p i (b ∷ bs) = if (b.participant == p) && (b.index == i) then true else has p i bs

-- A chain that has the target leads back to it.
back_to_total :
    (target : Blocker) (chain : List Blocker)
    → has target.participant target.index chain ≡ true
    → back_to target chain ≢ none
unfolding has back_to
back_to_total target [] h = absurd (cc)
back_to_total target (b ∷ chain) h = ground (arith, back_to_total target chain)

loop_constraint_total :
    (node : GridlockNode)
    → has node.blocker.participant node.blocker.index node.ancestors ≡ true
    → loop_constraint node ≢ none
unfolding loop_constraint
loop_constraint_total node h = ground (arith, back_to_total node.blocker node.ancestors h)

-- What the nodes in the queue keep: every visited blocker is the node's or one of its ancestors,
-- and the node's is one of all.
abbrev pub IsLinked : List Blocker → GridlockNode → Type 0
IsLinked all node =
    (has node.blocker.participant node.blocker.index all ≡ true)
    × ((p i : ℕ)
        → is_visited p i node.visited ≡ true
        → has p i (node.blocker ∷ node.ancestors) ≡ true)

abbrev pub IsOneOf : List Blocker → Blocker → Type 0
IsOneOf all b = has b.participant b.index all ≡ true

abbrev pub Expanded : List Blocker → ℕ → Option (List GridlockNode × List Constraint) → Type 0
Expanded all n none = ⊥
Expanded all n (some (queue, found)) = All (IsLinked all) queue × (length queue ≤ n)

pub wider :
    (all : List Blocker) (n n' : ℕ) (o : Option (List GridlockNode × List Constraint))
    → n ≤ n'
    → Expanded all n o
    → Expanded all n' o
wider all n n' none h x = absurd x
wider all n n' (some (queue, found)) h (a, b) = (a, omega arith)

module _ (all : List Blocker) where
  child_IsLinked :
      (top : GridlockNode) (dep : Blocker)
      → IsLinked all top
      → IsOneOf all dep
      → IsLinked all (record {
        blocker = dep;
        ancestors = top.blocker ∷ top.ancestors;
        visited = (dep.participant, dep.index) ∷ top.visited;
      })
  unfolding has is_visited
  child_IsLinked top dep (a, b) c = (c, λ p i v. ground (arith, b p i))

  pub expand_total :
      (top : GridlockNode) (s : State) (deps : List Blocker) (queue : List GridlockNode)
      (found : List Constraint)
      → IsLinked all top
      → All (IsOneOf all) deps
      → All (IsLinked all) queue
      → Expanded all (length queue + length deps) (expand top s deps queue found)
  unfolding expand
  expand_total top s [] queue found l d q = (q, omega arith)
  expand_total top s (dep ∷ deps) queue found l (d, ds) q =
      let rest : Expanded all n (expand top s deps queue found) =
        wider all (length queue + length deps) n (expand top s deps queue found) (omega arith)
          (expand_total top s deps queue found l ds q) in
      elim (Option-cases (partial_evaluate dep.constraint s)) [
        | inl e ↦ subst (Expanded all n) (sym (unblocked (inl e))) rest
        | inr (true, e) ↦ subst (Expanded all n) (sym (unblocked (inr e))) rest
        | inr (false, e) ↦ elim (Bool-cases seen) [
          | inl v ↦ elim (Option-cases (loop_constraint again)) [
            | inl z ↦ absurd (loop_constraint_total again (l.1 dep.participant dep.index v) z)
            | inr (c, z) ↦
                let step : expand top s (dep ∷ deps) queue found
                    ≡ expand top s deps queue (found ++ c ∷ []) =
                  ground (arith, e, v, z) in
                subst (Expanded all n) (sym step) (
                  wider all (length queue + length deps) n
                    (expand top s deps queue (found ++ c ∷ [])) (omega arith)
                    (expand_total top s deps queue (found ++ c ∷ []) l ds q))
          ]
          | inr v ↦
              let step : expand top s (dep ∷ deps) queue found
                  ≡ expand top s deps (next ∷ queue) found =
                ground (arith, e, v) in
              subst (Expanded all n) (sym step) (
                wider all (suc (length queue) + length deps) n
                  (expand top s deps (next ∷ queue) found) (omega arith)
                  (expand_total top s deps (next ∷ queue) found l ds
                    (child_IsLinked top dep l d, q)))
        ]
      ]
    where
      n : ℕ
      n = length queue + suc (length deps)

      seen : Bool
      seen = is_visited dep.participant dep.index top.visited

      again : GridlockNode
      again = record {
        blocker = dep;
        ancestors = top.blocker ∷ top.ancestors;
        visited = top.visited;
      }

      next : GridlockNode
      next = record {
        blocker = dep;
        ancestors = top.blocker ∷ top.ancestors;
        visited = (dep.participant, dep.index) ∷ top.visited;
      }

      unblocked :
          (partial_evaluate dep.constraint s ≡ none)
            ⊎ (partial_evaluate dep.constraint s ≡ some true)
          → expand top s (dep ∷ deps) queue found ≡ expand top s deps queue found
      unblocked (inl e) = ground (arith, e)
      unblocked (inr e) = ground (arith, e)

-- The fuel that is left is enough once one more blocker is expanded.
pub measure_step :
    (f bound u u' k k' : ℕ)
    → u' < u
    → k' ≤ k + bound
    → u * suc bound + suc k < suc f
    → u' * suc bound + k' < f
measure_step f bound u u' k k' lt b h = omega (arith, times_step u' u bound lt, b, h)
