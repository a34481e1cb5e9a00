-- ===== src/Blockade/Moderator/Keeps.antt =====
-- process_ready_queue: properties of the moderator that go through the loop.
use rmf_traffic.Base.{
  ℕ, zero, suc, ◌≡◌, sym, subst, some, List, [], ◌∷◌, ◌++◌, All, inl, inr, arith, Option-cases,
}
use rmf_traffic.Blockade.Moderator.{
  Moderator, ReadyInfo, ReadyStatus, skip, incomplete, finished, Outcome, thrown, check_reservation,
  process, process_ready_queue, enough,
}

module _ {A : Type 0} (Q : A → Type 0) where
  append-All : (xs ys : List A) → All Q xs → All Q ys → All Q (xs ++ ys)
  append-All [] ys a b = b
  append-All (x ∷ xs) ys (h, a) b = (h, append-All xs ys a b)

-- P is kept by a check of an entry with Q, and by a change of the queue alone.
module _ {Point Real : Type 0} (Q : ReadyInfo → Type 0) (P : Moderator Point Real → Type 0)
    (checks : (x : ReadyInfo) (m m' : Moderator Point Real) (st : ReadyStatus)
      → Q x
      → check_reservation x m ≡ some (m', st)
      → P m
      → P m')
    (queues : (m : Moderator Point Real) (q : List ReadyInfo)
      → P m
      → P (record m { ready_queue = q })) where
  process_keeps :
      (f : ℕ) (seen rest : List ReadyInfo) (m : Moderator Point Real)
      → All Q seen
      → All Q rest
      → P m
      → P (process f seen rest m).0
  unfolding process
  process_keeps zero seen rest m a b h = queues m (seen ++ rest) h
  process_keeps (suc f) seen [] m a b h = queues m (seen ++ []) h
  process_keeps (suc f) seen (x ∷ rest) m a (b, bs) h =
      elim (Option-cases (check_reservation x m)) [
        | inl e ↦
            let step : process (suc f) seen (x ∷ rest) m
                ≡ (record m { ready_queue = seen ++ x ∷ rest }, thrown) =
              ground (arith, e) in
            subst Good (sym step) (queues m (seen ++ x ∷ rest) h)
        | inr ((m', st), e) ↦
            let good : P m' = checks x m m' st b e h in
            (elim st
                as (λ k.
                  check_reservation x m ≡ some (m', k) → Good (process (suc f) seen (x ∷ rest) m)) [
                    | finished ↦ λ q.
                        let step : process (suc f) seen (x ∷ rest) m
                            ≡ process f [] (seen ++ rest) m' =
                          ground (arith, q) in
                        subst Good (sym step) (
                          process_keeps f [] (seen ++ rest) m' tt (append-All Q seen rest a bs)
                            good)
                    | incomplete ↦ λ q.
                        let step : process (suc f) seen (x ∷ rest) m
                            ≡ process f [] (seen ++ x ∷ rest) m' =
                          ground (arith, q) in
                        subst Good (sym step) (
                          process_keeps f [] (seen ++ x ∷ rest) m' tt
                            (append-All Q seen (x ∷ rest) a (b, bs)) good)
                    | skip ↦ λ q.
                        let step : process (suc f) seen (x ∷ rest) m
                            ≡ process f (seen ++ x ∷ []) rest m' =
                          ground (arith, q) in
                        subst Good (sym step) (
                          process_keeps f (seen ++ x ∷ []) rest m'
                            (append-All Q seen (x ∷ []) a (b, tt)) bs good)
                  ])
              e
      ]
    where
      Good : Moderator Point Real × Outcome → Type 0
      Good r = P r.0

  pub process_ready_queue_keeps :
      (m : Moderator Point Real) → All Q m.ready_queue → P m → P (process_ready_queue m).0
  unfolding process_ready_queue
  process_ready_queue_keeps m a h =
      process_keeps (enough m.assignments.ranges m.ready_queue) [] m.ready_queue m tt a h
