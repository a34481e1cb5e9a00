-- ===== src/Schedule/Participant/Resent.antt =====
-- schedule/Participant.cpp: what a participant sends again on request.
use rmf_traffic.Base.{
  ℕ, ◌≤◌, ◌<◌, ◌≡◌, refl, ◌∙◌, inl, inr, ◌⊎◌, Bool, true, false, Option, some, List, ◌++◌, map, ltb,
  ◌||◌, arith, Contains, Bool-cases,
}
use rmf_traffic.Base.Modular.{Modular, half, word, less_than-ltb}
use rmf_traffic.Schedule.Tracker.{Range}
use rmf_traffic.Schedule.Database.{◌>>=◌}
use rmf_traffic.Schedule.Participant.{
  WriterCall, Participant, retransmit, resend, correct_id, set, from_upper, predates,
}
use rmf_traffic.Schedule.Participant.History.{
  Asked, AreBefore, resend_ranges-has, from_upper-has, Contains-append_left, Contains-append_right,
  Contains-calls, call_of,
}
use rmf_traffic.Schedule.Participant.Answers.{IsWhole}

-- A change that the requester lacks, as far as its ranges and the version that it knows tell
abbrev pub Lacks : List Range → ℕ → ℕ → Type 0
Lacks ranges last_known v = Asked v ranges ⊎ (last_known < v)

abbrev pub Resends : List Range → ℕ → Participant → Option Participant → Type 0
Resends ranges last_known p o =
    (p' : Participant) × (o ≡ some p')
    × (p'.version ≡ p.version)
    × (p'.change_history ≡ p.change_history)
    × ((e : ℕ × WriterCall)
        → Contains e p.change_history
        → Lacks ranges last_known e.0
        → Contains e.1 p'.written)

module _ (m : Modular) where
  resend-Resends :
      (ranges : List Range) (last_known last_progress : ℕ) (p : Participant)
      → p.version < half
      → IsWhole p
      → last_known ≤ p.version
      → AreBefore last_known ranges
      → Resends ranges last_known p (resend m ranges last_known last_progress p)
  unfolding resend
  resend-Resends ranges last_known last_progress p low (first, k) b r =
      let (again, sends, has) =
        resend_ranges-has m p.version low first last_known p.change_history ranges k b r in
      let tail = map call_of (from_upper m last_known p.change_history) in
      let all = p.written ++ (again ++ tail) in
      let covers : (e : ℕ × WriterCall)
          → Contains e p.change_history
          → Lacks ranges last_known e.0
          → Contains e.1 all =
        λ e i q. Contains-append_right e.1 p.written (again ++ tail) (elim q [
          | inl asked ↦ Contains-append_left e.1 again tail (has e i asked)
          | inr later ↦ Contains-append_right e.1 again tail (
              Contains-calls e (from_upper m last_known p.change_history)
                (from_upper-has m p.version low first last_known p.change_history k b e i later))
        ]) in
      elim (Bool-cases
        (ltb last_progress p.progress.version || predates m last_known p.change_history)) [
          | inl x ↦
              rw (sends, ◌>>=◌)
                (rw x (_, refl, refl, refl, λ e i q. Contains-append_left e.1 all _ (covers e i q)))
          | inr x ↦ rw (sends, ◌>>=◌) (rw x (_, refl, refl, refl, covers))
        ]

  -- Where the history of a participant has every version from its first to its own, in the lower half
  -- of the counter, and the requester knows no later version and asks for ranges that end before the
  -- version that it knows: retransmit never walks past the end of the history, makes no new
  -- version, and sends again each change of the history that the requester lacks, which is one in
  -- its ranges or after the version that it knows.
  pub retransmit-Resends :
      (limited : Bool) (ranges : List Range) (last_known last_progress : ℕ) (p : Participant)
      → p.version < half
      → IsWhole p
      → last_known ≤ p.version
      → AreBefore last_known ranges
      → Resends ranges last_known p (retransmit m limited ranges last_known last_progress p)
  unfolding retransmit
  retransmit-Resends limited ranges last_known last_progress p low w b r =
      let near : m.less_than p.version last_known ≡ false =
        less_than-ltb m p.version last_known low (omega (arith, low, b)) ∙ (ground (arith, b)) in
      rw near (resend-Resends ranges last_known last_progress p low w b r)

  -- correct_id takes the new id, and nothing else changes: no call is made of the writer, as set returns
  -- at once for the current plan. The plan's id is one of 64 bits.
  pub correct_id_silent :
      (new_id : ℕ) (p : Participant)
      → p.current_plan_id < word
      → correct_id m new_id p ≡ record p { id = new_id }
  unfolding correct_id set
  correct_id_silent new_id p b =
      let same : m.less_than_or_equal p.current_plan_id p.current_plan_id ≡ true =
        m.less_than_or_equal_near p.current_plan_id p.current_plan_id b b (omega arith)
          (omega arith)
        ∙ (ground arith) in
      rw (same, correct_id, set) refl
