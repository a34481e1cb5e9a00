-- ===== src/Blockade/Conflicts/Final.antt =====
-- compute_final_ShouldGo_constraints: from the constraints that each peer imposes to one constraint
-- for each checkpoint.
pub mod Peers
use rmf_traffic.Base.{
  ℕ, Bool, true, false, Option, none, some, List, [], ◌∷◌, ◌++◌, is_empty, ◌==◌, if◌then◌else◌,
}
use rmf_traffic.Base.Assoc.{Assoc, lookup, insert, lookup_or, map_values}
use rmf_traffic.Blockade.Timeline.{Timeline}
use rmf_traffic.Blockade.Constraint.{
  Constraint, Constraints, passed, behind, all_of, any_of, nil, cons,
}
use rmf_traffic.Blockade.Gridlock.{to_constraints, compute_gridlock_constraint}
use rmf_traffic.Blockade.Conflicts.{
  IndexToConstraint, Blockers, PeerToPeerBlockers, Alignment, PeerToPeerAlignment, FinalConstraints,
}

-- `index_to_constraints[checkpoint.first].push_back(checkpoint.second)`, for the checkpoints of a peer
pub push_peer : IndexToConstraint → Assoc (List Constraint) → Assoc (List Constraint)
push_peer [] m = m
push_peer ((index, c) ∷ peer) m = push_peer peer (insert index (lookup_or index [] m ++ c ∷ []) m)

pub zero_order_of : Blockers → Assoc (List Constraint) → Assoc (List Constraint)
unfolding push_peer
zero_order_of [] m = m
zero_order_of ((_, peer) ∷ peers) m = zero_order_of peers (push_peer peer m)

-- One constraint alone, or the conjunction of several.
pub combine : List Constraint → Constraint
unfolding to_constraints
combine [] = all_of nil
combine (c ∷ []) = c
combine (c ∷ d ∷ cs) = all_of (to_constraints (c ∷ d ∷ cs))

unfoldable pub first_order_of : PeerToPeerBlockers → Blockers
unfolding zero_order_of combine
first_order_of =
    map_values (λ participant peers. map_values (λ index. combine) (zero_order_of peers []))

pub record Caveats : Type 0 where
  pub timeline : Timeline
  pub caveats : List ℕ

contains : ℕ → List ℕ → Bool
contains x [] = false
contains x (y ∷ ys) = if y == x then true else contains x ys

-- unordered_set::insert of a range
insert_all : List ℕ → List ℕ → List ℕ
unfolding contains
insert_all [] set = set
insert_all (x ∷ xs) set = insert_all xs (if contains x set then set else set ++ x ∷ [])

-- The caveats of one alignment with the peer other: checkpoint, then peer.
add_alignment : ℕ → Timeline → Assoc (List ℕ) → Assoc (Assoc Caveats) → Assoc (Assoc Caveats)
unfolding insert_all
add_alignment other timeline [] m = m
add_alignment other timeline ((index, points) ∷ more) m =
    let peers = lookup_or index [] m in
    let old = lookup_or other (record { timeline = timeline; caveats = [] }) peers in
    let new = record old { timeline = timeline; caveats = insert_all points old.caveats } in
    add_alignment other timeline more (insert index (insert other new peers) m)

add_alignments : ℕ → List Alignment → Assoc (Assoc Caveats) → Assoc (Assoc Caveats)
unfolding add_alignment
add_alignments other [] m = m
add_alignments other (a ∷ more) m =
    add_alignments other more (add_alignment other a.timeline a.index_to_caveats m)

pub caveats_of : Assoc (List Alignment) → Assoc (Assoc Caveats) → Assoc (Assoc Caveats)
unfolding add_alignments
caveats_of [] m = m
caveats_of ((other, alignments) ∷ peers) m = caveats_of peers (add_alignments other alignments m)

-- The constraints that sharing a lane with the peer other puts on the participant.
share_caveats : ℕ → ℕ → Timeline → List ℕ → IndexToConstraint → List Constraint
share_caveats participant other timeline [] constraints = []
share_caveats participant other timeline (caveat ∷ more) constraints =
    let rest = share_caveats participant other timeline more constraints in
    elim (lookup caveat constraints) [
      | none ↦ rest
      | some c ↦
          any_of
            (cons (behind other participant timeline) (cons (passed other caveat) (cons c nil)))
          ∷ rest
    ]

share_peers : ℕ → Assoc Caveats → Blockers → List Constraint
unfolding share_caveats
share_peers participant [] first_order = []
share_peers participant ((other, c) ∷ peers) first_order =
    let rest = share_peers participant peers first_order in
    elim (lookup other first_order) [
      | none ↦ rest
      | some constraints ↦ share_caveats participant other c.timeline c.caveats constraints ++ rest
    ]

-- The share of a participant at a checkpoint, if there is any.
pub share_at : ℕ → ℕ → Assoc (Assoc Caveats) → Blockers → Option Constraint
unfolding share_peers to_constraints
share_at participant checkpoint all_caveats first_order =
    let sharing = share_peers participant (lookup_or checkpoint [] all_caveats) first_order in
    if is_empty sharing then none else some (all_of (to_constraints sharing))

-- The conjunction of the gridlock constraint, the first order constraint and the share.
pub final_constraint : Constraint → Constraint → Option Constraint → Constraint
final_constraint gridlock c none = all_of (cons gridlock (cons c nil))
final_constraint gridlock c (some share) = all_of (cons gridlock (cons c (cons share nil)))

-- `final_order[participant][checkpoint] = and_constraint`: a participant with no checkpoint that is
-- constrained gets no entry.
unfoldable pub final_order_of : Constraint → PeerToPeerAlignment → Blockers → Blockers → Blockers
unfolding caveats_of share_at final_constraint
final_order_of gridlock alignment first_order [] = []
final_order_of gridlock alignment first_order ((participant, constraints) ∷ more) =
    let rest = final_order_of gridlock alignment first_order more in
    let caveats = caveats_of (lookup_or participant [] alignment) [] in
    let final = λ (checkpoint : ℕ) (c : Constraint).
      final_constraint gridlock c (share_at participant checkpoint caveats first_order) in
    if is_empty constraints then rest else (participant, map_values final constraints) ∷ rest

unfoldable pub compute_final_ShouldGo_constraints :
    PeerToPeerBlockers → PeerToPeerAlignment → FinalConstraints
unfolding first_order_of final_order_of compute_gridlock_constraint
compute_final_ShouldGo_constraints peer_blockers peer_alignment =
    let first_order = first_order_of peer_blockers in
    let gridlock = compute_gridlock_constraint first_order in
    record {
      should_go = final_order_of gridlock peer_alignment first_order first_order;
      gridlock = gridlock;
    }
