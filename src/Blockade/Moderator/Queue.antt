-- ===== src/Blockade/Moderator/Queue.antt =====
-- process_ready_queue: how far the queue is from its goals, and the entries that are stuck.
use rmf_traffic.Base.{
  ℕ, zero, suc, ◌+◌, ◌*◌, ◌≤◌, ◌<◌, ◌≡◌, refl, sym, subst, inl, inr, some, List, [], ◌∷◌, ◌++◌,
  length, length-append, All, arith, Option-cases, Bool-cases, times_step, ◌==◌,
}
use mathlib.Core.List.{append-nil, append_assoc}
use rmf_traffic.Base.Assoc.{lookup, insert, lookup-insert}
use rmf_traffic.Blockade.Range.{ReservedRange, State}
use rmf_traffic.Blockade.Moderator.{
  Moderator, ReadyInfo, skip, incomplete, finished, Outcome, returned, thrown, out_of_fuel, assign,
  check_reservation, check_range, reserve, process, process_ready_queue, distance, total_distance,
  enough,
}
use rmf_traffic.Blockade.Moderator.Reserve.{Granted, Answer, check_reservation-Answer}

total_distance-append :
    (s : State) (xs ys : List ReadyInfo)
    → total_distance s (xs ++ ys) ≡ total_distance s xs + total_distance s ys
unfolding total_distance
total_distance-append s [] ys = omega arith
total_distance-append s (x ∷ xs) ys = omega (arith, total_distance-append s xs ys)

module _ (s : State) (p : ℕ) (r : ReservedRange) (e : ℕ) (l : lookup p s ≡ some r)
    (g : r.end < e) where
  abbrev widened : State
  widened = insert p (record r { end = e }) s

  -- A wider range brings no entry further from its goal.
  distance-widened : (x : ReadyInfo) → distance widened x ≤ distance s x
  unfolding distance
  distance-widened x = elim (Bool-cases (p == x.participant_id)) [
    | inl q ↦
        let here : p ≡ x.participant_id = ground (arith, q) in
        let old : lookup x.participant_id s ≡ some r =
          subst (λ (n : ℕ). lookup n s ≡ some r) here l in
        ground (arith, lookup-insert x.participant_id p (record r { end = e }) s, q, old)
    | inr q ↦ ground (arith, lookup-insert x.participant_id p (record r { end = e }) s, q)
  ]

  total_distance-widened : (xs : List ReadyInfo) → total_distance widened xs ≤ total_distance s xs
  unfolding total_distance
  total_distance-widened [] = omega arith
  total_distance-widened (x ∷ xs) = omega (arith, distance-widened x, total_distance-widened xs)

  -- It brings an entry of the participant that is not yet past e nearer.
  distance-widened_lt :
      (x : ReadyInfo)
      → x.participant_id ≡ p
      → e ≤ x.checkpoint + 1
      → distance widened x < distance s x
  unfolding distance
  distance-widened_lt x q b =
      let old : lookup x.participant_id s ≡ some r =
        subst (λ (n : ℕ). lookup n s ≡ some r) (sym q) l in
      ground (arith, lookup-insert x.participant_id p (record r { end = e }) s, old)

-- The fuel that is left is enough after a step that brings the queue nearer.
measure_step : (n f d d' l k : ℕ) → d' < d → l ≤ n → d * suc n + suc k < suc f → d' * suc n + l < f
measure_step n f d d' l k lt b h = omega (arith, times_step d' d n lt, b, h)

lengths :
    (xs : List ReadyInfo) (x : ReadyInfo) (ys : List ReadyInfo)
    → length (xs ++ x ∷ ys) ≡ suc (length (xs ++ ys))
lengths xs x ys = omega (arith, length-append xs (x ∷ ys), length-append xs ys)

distance_positive : (s : State) (x : ReadyInfo) → 0 < distance s x
unfolding distance
distance_positive s x = ground arith

removed_distance :
    (s : State) (x : ReadyInfo) (xs ys : List ReadyInfo)
    → total_distance s (xs ++ ys) < total_distance s (xs ++ x ∷ ys)
unfolding total_distance
removed_distance s x xs ys = omega (
  arith,
  total_distance-append s xs ys,
  total_distance-append s xs (x ∷ ys),
  distance_positive s x,
)

module _ {Point Real : Type 0} where
  -- After a check that grants, the queue is nearer to its goals.
  Granted-distance :
      (x : ReadyInfo) (m m' : Moderator Point Real) (xs ys : List ReadyInfo)
      → Granted x m m'
      → (total_distance m'.assignments.ranges (xs ++ x ∷ ys)
          < total_distance m.assignments.ranges (xs ++ x ∷ ys))
        × (total_distance m'.assignments.ranges (xs ++ ys)
            ≤ total_distance m.assignments.ranges (xs ++ ys))
  unfolding total_distance assign
  Granted-distance x m m' xs ys (r, e, l, a, b, q, best) =
      let s : State = m.assignments.ranges in
      let p : ℕ = x.participant_id in
      let new : State = widened s p r e l a in
      let nearer = distance-widened_lt s p r e l a x refl b in
      let xs_ok = total_distance-widened s p r e l a xs in
      let ys_ok = total_distance-widened s p r e l a ys in
      let both : (total_distance new (xs ++ x ∷ ys) < total_distance s (xs ++ x ∷ ys))
          × (total_distance new (xs ++ ys) ≤ total_distance s (xs ++ ys)) =
        (
          omega (
            arith,
            nearer,
            xs_ok,
            ys_ok,
            total_distance-append new xs (x ∷ ys),
            total_distance-append s xs (x ∷ ys),
          ),
          omega
              (arith, xs_ok, ys_ok, total_distance-append new xs ys, total_distance-append s xs ys),
        ) in
      subst
        (λ (n : Moderator Point Real).
          (total_distance n.assignments.ranges (xs ++ x ∷ ys) < total_distance s (xs ++ x ∷ ys))
          × (total_distance n.assignments.ranges (xs ++ ys) ≤ total_distance s (xs ++ ys)))
        (sym q) both

  finished_distance :
      (x : ReadyInfo) (m m' : Moderator Point Real) (xs ys : List ReadyInfo)
      → Answer x m m' finished
      → total_distance m'.assignments.ranges (xs ++ ys)
        < total_distance m.assignments.ranges (xs ++ x ∷ ys)
  finished_distance x m m' xs ys (inl e) =
      subst
        (λ (k : Moderator Point Real).
          total_distance k.assignments.ranges (xs ++ ys)
          < total_distance m.assignments.ranges (xs ++ x ∷ ys))
        (sym e) (removed_distance m.assignments.ranges x xs ys)
  finished_distance x m m' xs ys (inr g) =
      omega
        (arith, (Granted-distance x m m' xs ys g).1, removed_distance m.assignments.ranges x xs ys)

  -- A check does not read the queue.
  skip_keeps :
      (x : ReadyInfo) (m : Moderator Point Real) (q : List ReadyInfo)
      → check_reservation x m ≡ some (m, skip)
      → check_reservation x (record m { ready_queue = q })
        ≡ some (record m { ready_queue = q }, skip)
  unfolding check_reservation check_range reserve
  skip_keeps x m q h = ground (arith, h)

  abbrev pub AllStuck : Moderator Point Real → List ReadyInfo → Type 0
  AllStuck m xs = All (λ x. check_reservation x m ≡ some (m, skip)) xs

  stuck_snoc :
      (m : Moderator Point Real) (xs : List ReadyInfo) (x : ReadyInfo)
      → AllStuck m xs
      → check_reservation x m ≡ some (m, skip)
      → AllStuck m (xs ++ x ∷ [])
  stuck_snoc m [] x a h = (h, tt)
  stuck_snoc m (y ∷ xs) x (b, a) h = (b, stuck_snoc m xs x a h)

  stuck_queue :
      (m : Moderator Point Real) (q xs : List ReadyInfo)
      → AllStuck m xs
      → AllStuck (record m { ready_queue = q }) xs
  stuck_queue m q [] a = tt
  stuck_queue m q (y ∷ xs) (b, a) = (skip_keeps y m q b, stuck_queue m q xs a)

  -- The loop has not run out of fuel; where it returns, each entry that is left is stuck.
  abbrev pub IsSettled : Moderator Point Real × Outcome → Type 0
  IsSettled (m, returned) = AllStuck m m.ready_queue
  IsSettled (m, thrown) = Unit
  IsSettled (m, out_of_fuel) = ⊥

  process_settles :
      (n f : ℕ) (seen rest : List ReadyInfo) (m : Moderator Point Real)
      → length (seen ++ rest) ≤ n
      → AllStuck m seen
      → total_distance m.assignments.ranges (seen ++ rest) * suc n + length rest < f
      → IsSettled (process f seen rest m)
  unfolding process
  process_settles n zero seen rest m b a h = absurd (omega arith)
  process_settles n (suc f) seen [] m b a h =
      subst (λ q. AllStuck (record m { ready_queue = seen ++ [] }) q) (sym (append-nil seen))
        (stuck_queue m (seen ++ []) seen a)
  process_settles n (suc f) seen (x ∷ rest) m b a h = elim (Option-cases (check_reservation x m)) [
    | inl e ↦
        let step : process (suc f) seen (x ∷ rest) m
            ≡ (record m { ready_queue = seen ++ x ∷ rest }, thrown) =
          ground (arith, e) in
        subst IsSettled (sym step) tt
    | inr ((m', finished), e) ↦
        let step : process (suc f) seen (x ∷ rest) m ≡ process f [] (seen ++ rest) m' =
          ground (arith, e) in
        subst IsSettled (sym step) (
          process_settles n f [] (seen ++ rest) m' (omega (arith, lengths seen x rest, b)) tt (
            measure_step n f (total_distance m.assignments.ranges (seen ++ x ∷ rest))
              (total_distance m'.assignments.ranges (seen ++ rest)) (length (seen ++ rest))
              (length rest)
              (finished_distance x m m' seen rest (check_reservation-Answer x m m' finished e))
              (omega (arith, lengths seen x rest, b)) h))
    | inr ((m', incomplete), e) ↦
        let step : process (suc f) seen (x ∷ rest) m ≡ process f [] (seen ++ x ∷ rest) m' =
          ground (arith, e) in
        subst IsSettled (sym step) (
          process_settles n f [] (seen ++ x ∷ rest) m' b tt (
            measure_step n f (total_distance m.assignments.ranges (seen ++ x ∷ rest))
              (total_distance m'.assignments.ranges (seen ++ x ∷ rest)) (length (seen ++ x ∷ rest))
              (length rest)
              (Granted-distance x m m' seen rest (check_reservation-Answer x m m' incomplete e)).0 b
              h))
    | inr ((m', skip), e) ↦
        let same : m' ≡ m = check_reservation-Answer x m m' skip e in
        let stuck : check_reservation x m ≡ some (m, skip) =
          subst (λ (k : Moderator Point Real). check_reservation x m ≡ some (k, skip)) same e in
        let split : seen ++ x ∷ [] ++ rest ≡ seen ++ x ∷ rest = append_assoc seen (x ∷ []) rest in
        let step : process (suc f) seen (x ∷ rest) m ≡ process f (seen ++ x ∷ []) rest m =
          ground (arith, stuck) in
        subst IsSettled (sym step) (
          process_settles n f (seen ++ x ∷ []) rest m (rw split b) (stuck_snoc m seen x a stuck)
            (rw split (omega (arith, h))))
  ]

  pub process_ready_queue_settles : (m : Moderator Point Real) → IsSettled (process_ready_queue m)
  unfolding process_ready_queue enough
  process_ready_queue_settles m =
      process_settles (length m.ready_queue) (enough m.assignments.ranges m.ready_queue) []
        m.ready_queue m (omega arith) tt (omega arith)
