-- ===== src/Schedule/Tracker/Check/Recorded.antt =====
-- InconsistencyTracker::check and Ticket::set: the callbacks among the recorded changes.
use rmf_traffic.Base.{
  ℕ, inl, inr, Bool, true, false, none, some, [], ◌∷◌, Bool-cases, Option-cases, is_empty, ltb,
  ◌==◌,
}
use rmf_traffic.Base.Modular.{Modular}
use rmf_traffic.Schedule.Tracker.{
  Tracker, Changes, Range, insert_change, erase_older, has_change, lower_bound,
}
use rmf_traffic.Schedule.Tracker.Check.{
  check, check_seen, check_consistent, check_inconsistent, check_above, check_within, record_change,
  see_version, set_callback,
}

-- The recorded callbacks are calls of a kind.
abbrev pub Allowed : {C : Type 0} → (C → Type 0) → Changes C → Type 0
Allowed Ok [] = Unit
Allowed Ok ((k, none) ∷ cs) = Allowed Ok cs
Allowed Ok ((k, some c) ∷ cs) = Ok c × Allowed Ok cs

module _ {C : Type 0} (Ok : C → Type 0) where
  insert_change-Allowed :
      (v : ℕ) (cs : Changes C) → Allowed Ok cs → Allowed Ok (insert_change v none cs)
  unfolding insert_change
  insert_change-Allowed v [] h = tt
  insert_change-Allowed v ((k, none) ∷ cs) h = elim (Bool-cases (ltb k v)) [
    | inl e ↦ rw e (insert_change-Allowed v cs h)
    | inr e ↦ elim (Bool-cases (k == v)) [ inl x ↦ rw (e, x) h | inr x ↦ rw (e, x) h ]
  ]
  insert_change-Allowed v ((k, some c) ∷ cs) h = elim (Bool-cases (ltb k v)) [
    | inl e ↦ rw e (h.0, insert_change-Allowed v cs h.1)
    | inr e ↦ elim (Bool-cases (k == v)) [ inl x ↦ rw (e, x) h | inr x ↦ rw (e, x) h ]
  ]

  erase_older-Allowed : (v : ℕ) (cs : Changes C) → Allowed Ok cs → Allowed Ok (erase_older v cs)
  unfolding erase_older
  erase_older-Allowed v [] h = tt
  erase_older-Allowed v ((k, none) ∷ cs) h = elim (Bool-cases (ltb k v)) [
    | inl e ↦ rw (e, erase_older) (erase_older-Allowed v cs h)
    | inr e ↦ rw (e, erase_older) h
  ]
  erase_older-Allowed v ((k, some c) ∷ cs) h = elim (Bool-cases (ltb k v)) [
    | inl e ↦ rw (e, erase_older) (erase_older-Allowed v cs h.1)
    | inr e ↦ rw (e, erase_older) h
  ]

  pub set_callback-Allowed :
      (v : ℕ) (c : C) (cs : Changes C) → Ok c → Allowed Ok cs → Allowed Ok (set_callback v c cs)
  unfolding set_callback
  set_callback-Allowed v c [] o h = tt
  set_callback-Allowed v c ((k, none) ∷ cs) o h = elim (Bool-cases (k == v)) [
    | inl e ↦ rw e (o, h)
    | inr e ↦ rw e (set_callback-Allowed v c cs o h)
  ]
  set_callback-Allowed v c ((k, some d) ∷ cs) o h = elim (Bool-cases (k == v)) [
    | inl e ↦ rw e (o, h.1)
    | inr e ↦ rw e (h.0, set_callback-Allowed v c cs o h.1)
  ]

  record_change-Allowed :
      (t : Tracker C) (v : ℕ) (nullifying : Bool)
      → Allowed Ok t.changes
      → Allowed Ok (record_change t v nullifying).changes
  unfolding record_change
  record_change-Allowed t v true h =
      erase_older-Allowed v (insert_change v none t.changes) (insert_change-Allowed v t.changes h)
  record_change-Allowed t v false h = insert_change-Allowed v t.changes h

  module _ (m : Modular) where
    above-Allowed :
        (t : Tracker C) (v : ℕ) (nullifying : Bool)
        → Allowed Ok t.changes
        → Allowed Ok (check_above m t v nullifying).0.changes
    unfolding check_above
    above-Allowed t v true h = tt
    above-Allowed t v false h = h

    within-Allowed :
        (t : Tracker C) (v : ℕ) (nullifying : Bool) (r : Range)
        → Allowed Ok t.changes
        → Allowed Ok (check_within m t v nullifying r).0.changes
    unfolding check_within
    within-Allowed t v true r h = h
    within-Allowed t v false r h = h

    consistent-Allowed :
        (t : Tracker C) (v : ℕ) (nullifying : Bool)
        → Allowed Ok t.changes
        → Allowed Ok (check_consistent m t v nullifying).0.changes
    unfolding check_consistent
    consistent-Allowed t v true h = h
    consistent-Allowed t v false h = elim (Bool-cases (v == t.expected_version)) [
      | inl e ↦ rw e h
      | inr e ↦ rw e (insert_change-Allowed v t.changes h)
    ]

    inconsistent-Allowed :
        (t : Tracker C) (v : ℕ) (nullifying : Bool)
        → Allowed Ok t.changes
        → Allowed Ok (check_inconsistent m t v nullifying).0.changes
    unfolding check_inconsistent
    inconsistent-Allowed t v nullifying h =
        let recorded = record_change-Allowed t v nullifying h in
        elim (Bool-cases (has_change v t.changes)) [
          | inl e ↦ rw e h
          | inr e ↦ elim (Option-cases (lower_bound m v t.ranges)) [
            | inl n ↦ rw e (
                rw (n, check_inconsistent)
                  (above-Allowed (record_change t v nullifying) v nullifying recorded))
            | inr (r, n) ↦ rw e (
                rw (n, check_inconsistent)
                  (within-Allowed (record_change t v nullifying) v nullifying r recorded))
          ]
        ]

    pub check-Allowed :
        (t : Tracker C) (v : ℕ) (nullifying : Bool)
        → Allowed Ok t.changes
        → Allowed Ok (check m t v nullifying).0.changes
    unfolding check check_seen see_version
    check-Allowed t v nullifying h = elim (Bool-cases (is_empty t.ranges)) [
      | inl e ↦ rw e (consistent-Allowed (see_version m t v) v nullifying h)
      | inr e ↦ rw e (inconsistent-Allowed (see_version m t v) v nullifying h)
    ]
