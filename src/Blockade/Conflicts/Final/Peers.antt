-- ===== src/Blockade/Conflicts/Final/Peers.antt =====
-- compute_final_ShouldGo_constraints: where the constraints of the peers go.
use rmf_traffic.Base.{
  ℕ, ◌≡◌, refl, sym, ◌∙◌, subst, inl, inr, true, Option, none, some, List, [], ◌∷◌, ◌++◌, Contains,
  arith, Bool-cases, ◌==◌,
}
use mathlib.Core.Option.{some-injective}
use rmf_traffic.Base.Assoc.{
  Assoc, lookup, insert, lookup_or, lookup_head, lookup_tail, lookup-map_values,
  lookup_or-insert_same, lookup_or-insert_other, map_values,
}
use rmf_traffic.Blockade.Range.{State}
use rmf_traffic.Blockade.Constraint.{Constraint, all_of, evaluate}
use rmf_traffic.Blockade.Gridlock.{to_constraints, compute_gridlock_constraint}
use rmf_traffic.Blockade.Conflicts.{
  IndexToConstraint, Blockers, PeerToPeerBlockers, PeerToPeerAlignment,
}
use rmf_traffic.Blockade.Conflicts.Final.{
  push_peer, zero_order_of, combine, first_order_of, caveats_of, share_at, final_constraint,
  final_order_of, compute_final_ShouldGo_constraints,
}

Contains-append_left :
    (k : Constraint) (xs ys : List Constraint) → Contains k xs → Contains k (xs ++ ys)
Contains-append_left k [] ys h = absurd h
Contains-append_left k (x ∷ xs) ys (inl e) = inl e
Contains-append_left k (x ∷ xs) ys (inr h) = inr (Contains-append_left k xs ys h)

Contains-snoc : (k : Constraint) (xs : List Constraint) → Contains k (xs ++ k ∷ [])
Contains-snoc k [] = inl refl
Contains-snoc k (x ∷ xs) = inr (Contains-snoc k xs)

-- The constraints that are collected for a checkpoint
abbrev HasAt : ℕ → Constraint → Assoc (List Constraint) → Type 0
HasAt i k m = Contains k (lookup_or i [] m)

push_kept :
    (i j : ℕ) (k c : Constraint) (m : Assoc (List Constraint))
    → HasAt i k m
    → HasAt i k (insert j (lookup_or j [] m ++ c ∷ []) m)
push_kept i j k c m h = elim (Bool-cases (j == i)) [
  | inl e ↦
      let here : i ≡ j = ground (arith, e) in
      let new : lookup_or i [] (insert j (lookup_or j [] m ++ c ∷ []) m)
          ≡ lookup_or j [] m ++ c ∷ [] =
        lookup_or-insert_same i j [] (lookup_or j [] m ++ c ∷ []) m e in
      subst (Contains k) (sym new)
        (Contains-append_left k (lookup_or j [] m) (c ∷ []) (subst (λ (n : ℕ). HasAt n k m) here h))
  | inr e ↦
      let old : lookup_or i [] (insert j (lookup_or j [] m ++ c ∷ []) m) ≡ lookup_or i [] m =
        lookup_or-insert_other i j [] (lookup_or j [] m ++ c ∷ []) m e in
      subst (Contains k) (sym old) h
]

push_new :
    (i : ℕ) (k : Constraint) (m : Assoc (List Constraint))
    → HasAt i k (insert i (lookup_or i [] m ++ k ∷ []) m)
push_new i k m =
    let new : lookup_or i [] (insert i (lookup_or i [] m ++ k ∷ []) m)
        ≡ lookup_or i [] m ++ k ∷ [] =
      lookup_or-insert_same i i [] (lookup_or i [] m ++ k ∷ []) m (ground arith) in
    subst (Contains k) (sym new) (Contains-snoc k (lookup_or i [] m))

push_peer_kept :
    (peer : IndexToConstraint) (i : ℕ) (k : Constraint) (m : Assoc (List Constraint))
    → HasAt i k m
    → HasAt i k (push_peer peer m)
unfolding push_peer
push_peer_kept [] i k m h = h
push_peer_kept ((j, c) ∷ peer) i k m h =
    push_peer_kept peer i k (insert j (lookup_or j [] m ++ c ∷ []) m) (push_kept i j k c m h)

push_peer_new :
    (peer : IndexToConstraint) (i : ℕ) (k : Constraint) (m : Assoc (List Constraint))
    → lookup i peer ≡ some k
    → HasAt i k (push_peer peer m)
unfolding push_peer
push_peer_new [] i k m h = absurd (cc)
push_peer_new ((j, c) ∷ peer) i k m h = elim (Bool-cases (j == i)) [
  | inl e ↦
      let here : j ≡ i = ground (arith, e) in
      let same : c ≡ k = ground (arith, e, h) in
      push_peer_kept peer i k (insert j (lookup_or j [] m ++ c ∷ []) m)
        (rw (same, here) (push_new i k m))
  | inr e ↦ push_peer_new peer i k (insert j (lookup_or j [] m ++ c ∷ []) m) (ground (arith, e, h))
]

zero_order_kept :
    (peers : Blockers) (i : ℕ) (k : Constraint) (m : Assoc (List Constraint))
    → HasAt i k m
    → HasAt i k (zero_order_of peers m)
unfolding zero_order_of
zero_order_kept [] i k m h = h
zero_order_kept ((q, peer) ∷ peers) i k m h =
    zero_order_kept peers i k (push_peer peer m) (push_peer_kept peer i k m h)

-- Each constraint of each peer is collected.
zero_order_new :
    (peers : Blockers) (q i : ℕ) (peer : IndexToConstraint) (k : Constraint)
    (m : Assoc (List Constraint))
    → lookup q peers ≡ some peer
    → lookup i peer ≡ some k
    → HasAt i k (zero_order_of peers m)
unfolding zero_order_of
zero_order_new [] q i peer k m h l = absurd (cc)
zero_order_new ((j, first) ∷ peers) q i peer k m h l = elim (Bool-cases (j == q)) [
  | inl e ↦
      let same : first ≡ peer = ground (arith, e, h) in
      zero_order_kept peers i k (push_peer first m) (push_peer_new first i k m (rw same l))
  | inr e ↦ zero_order_new peers q i peer k (push_peer first m) (ground (arith, e, h)) l
]

HasAt-lookup :
    (i : ℕ) (k : Constraint) (m : Assoc (List Constraint))
    → HasAt i k m
    → (ks : List Constraint) × (lookup i m ≡ some ks) × Contains k ks
HasAt-lookup i k [] h = absurd h
HasAt-lookup i k ((j, cs) ∷ m) h = elim (Bool-cases (j == i)) [
  | inl e ↦
      let here : lookup_or i [] ((j, cs) ∷ m) ≡ cs = ground (arith, e) in
      (cs, ground (arith, e), subst (Contains k) here h)
  | inr e ↦
      let there : lookup_or i [] ((j, cs) ∷ m) ≡ lookup_or i [] m = ground (arith, e) in
      let (ks, l, c) = HasAt-lookup i k m (subst (Contains k) there h) in
      (ks, ground (arith, e, l), c)
]

evaluate_all-Contains :
    (ks : List Constraint) (k : Constraint) (s : State)
    → evaluate (all_of (to_constraints ks)) s ≡ some true
    → Contains k ks
    → evaluate k s ≡ some true
unfolding evaluate to_constraints
evaluate_all-Contains [] k s h c = absurd c
evaluate_all-Contains (x ∷ ks) k s h (inl e) =
    subst (λ (n : Constraint). evaluate n s ≡ some true) (sym e) (ground (arith, h))
evaluate_all-Contains (x ∷ ks) k s h (inr c) = evaluate_all-Contains ks k s (ground (arith, h)) c

combine-Contains :
    (ks : List Constraint) (k : Constraint) (s : State)
    → evaluate (combine ks) s ≡ some true
    → Contains k ks
    → evaluate k s ≡ some true
unfolding combine
combine-Contains [] k s h c = absurd c
combine-Contains (x ∷ []) k s h (inl e) =
    subst (λ (n : Constraint). evaluate n s ≡ some true) (sym e) h
combine-Contains (x ∷ []) k s h (inr c) = absurd c
combine-Contains (x ∷ y ∷ ks) k s h c = evaluate_all-Contains (x ∷ y ∷ ks) k s h c

final_constraint-first :
    (gridlock c : Constraint) (share : Option Constraint) (s : State)
    → evaluate (final_constraint gridlock c share) s ≡ some true
    → evaluate c s ≡ some true
unfolding final_constraint evaluate
final_constraint-first gridlock c none s h = ground (arith, h)
final_constraint-first gridlock c (some share) s h = ground (arith, h)

-- A checkpoint that is constrained in the first order is constrained in the final order.
final_order_lookup :
    (gridlock : Constraint) (alignment : PeerToPeerAlignment) (first more : Blockers) (p i : ℕ)
    (constraints : IndexToConstraint) (c : Constraint)
    → lookup p more ≡ some constraints
    → lookup i constraints ≡ some c
    → (cs : IndexToConstraint) × (share : Option Constraint) × (lookup p
          (final_order_of gridlock alignment first more)
        ≡ some cs)
      × (lookup i cs ≡ some (final_constraint gridlock c share))
unfolding final_order_of
final_order_lookup gridlock alignment first [] p i constraints c l k = absurd (cc)
final_order_lookup gridlock alignment first ((q, []) ∷ more) p i constraints c l k =
    elim (Bool-cases (q == p)) [
      | inl e ↦
          let same : [] ≡ constraints =
            some-injective [] constraints (sym (lookup_head q p [] more e) ∙ l) in
          absurd
            (ground (arith, subst (λ (n : IndexToConstraint). lookup i n ≡ some c) (sym same) k))
      | inr e ↦
          final_order_lookup gridlock alignment first more p i constraints c
            (sym (lookup_tail q p [] more e) ∙ l) k
    ]
final_order_lookup gridlock alignment first ((q, x ∷ own) ∷ more) p i constraints c l k =
    elim (Bool-cases (q == p)) [
      | inl e ↦
          let same : (x ∷ own) ≡ constraints =
            some-injective (x ∷ own) constraints (sym (lookup_head q p (x ∷ own) more e) ∙ l) in
          (
            map_values final (x ∷ own),
            share_at q i (caveats_of (lookup_or q [] alignment) []) first,
            lookup_head q p (map_values final (x ∷ own))
                (final_order_of gridlock alignment first more) e,
            lookup-map_values final i c (x ∷ own)
                (subst (λ (n : IndexToConstraint). lookup i n ≡ some c) (sym same) k),
          )
      | inr e ↦
          let (cs, share, a, b) =
            final_order_lookup gridlock alignment first more p i constraints c
              (sym (lookup_tail q p (x ∷ own) more e) ∙ l) k in
          (
            cs,
            share,
            lookup_tail q p (map_values final (x ∷ own))
                  (final_order_of gridlock alignment first more) e
                ∙ a,
            b,
          )
    ]
  where
    final : ℕ → Constraint → Constraint
    final checkpoint d =
        final_constraint gridlock d
          (share_at q checkpoint (caveats_of (lookup_or q [] alignment) []) first)

-- Where the final constraint of a participant on a checkpoint holds, so does the constraint that
-- any peer puts on it; and there is a final constraint where a peer puts one.
pub compute_final_ShouldGo_constraints-peers :
    (peer_blockers : PeerToPeerBlockers) (alignment : PeerToPeerAlignment) (p q i : ℕ)
    (peers : Blockers) (peer : IndexToConstraint) (k : Constraint)
    → lookup p peer_blockers ≡ some peers
    → lookup q peers ≡ some peer
    → lookup i peer ≡ some k
    → (cs : IndexToConstraint) × (final : Constraint) × (lookup p
          (compute_final_ShouldGo_constraints peer_blockers alignment).should_go
        ≡ some cs)
      × (lookup i cs ≡ some final)
      × ((s : State) → evaluate final s ≡ some true → evaluate k s ≡ some true)
unfolding compute_final_ShouldGo_constraints first_order_of
compute_final_ShouldGo_constraints-peers peer_blockers alignment p q i peers peer k lp lq li =
    let (ks, lk, has) =
      HasAt-lookup i k (zero_order_of peers []) (zero_order_new peers q i peer k [] lq li) in
    let own : IndexToConstraint = map_values (λ index. combine) (zero_order_of peers []) in
    let first : Blockers = first_order_of peer_blockers in
    let l : lookup p first ≡ some own =
      lookup-map_values (λ participant ps. map_values (λ index. combine) (zero_order_of ps [])) p
        peers peer_blockers lp in
    let c : lookup i own ≡ some (combine ks) =
      lookup-map_values (λ index. combine) i ks (zero_order_of peers []) lk in
    let (cs, share, a, b) =
      final_order_lookup (compute_gridlock_constraint first) alignment first first p i own
        (combine ks) l c in
    (
      cs,
      final_constraint (compute_gridlock_constraint first) (combine ks) share,
      a,
      b,
      λ s h.
          combine-Contains ks k s
            (final_constraint-first (compute_gridlock_constraint first) (combine ks) share s h) has,
    )
