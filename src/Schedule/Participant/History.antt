-- ===== src/Schedule/Participant/History.antt =====
-- schedule/Participant.cpp: the history of changes and the answer to a request for retransmission.
use rmf_traffic.Base.{
  ℕ, suc, ◌≤◌, ◌<◌, ◌≡◌, refl, sym, ap, ◌∙◌, inl, inr, ◌⊎◌, true, false, Option, some, List, [],
  ◌∷◌, ◌++◌, map, ltb, leb, arith, All, Contains, Bool-cases,
}
use rmf_traffic.Base.Modular.{Modular, half, less_than-ltb}
use rmf_traffic.Schedule.Tracker.{Range}
use rmf_traffic.Schedule.Participant.{
  WriterCall, ChangeHistory, insert_change, from_lower, from_upper, finds, resend_through,
  resend_ranges, joined,
}

-- The versions of the history follow one another, from the first to the last.
abbrev pub Counts : ℕ → ℕ → ChangeHistory → Type 0
Counts first last [] = first ≡ suc last
Counts first last ((v, c) ∷ h) = (v ≡ first) × Counts (suc first) last h

pub Counts-bound : (a n : ℕ) (h : ChangeHistory) → Counts a n h → a ≤ suc n
Counts-bound a n [] e = omega (arith, e)
Counts-bound a n ((v, c) ∷ h) k = omega (arith, Counts-bound (suc a) n h k.1)

Counts-above :
    (a n : ℕ) (h : ChangeHistory) (e : ℕ × WriterCall) → Counts a n h → Contains e h → a ≤ e.0
Counts-above a n [] e k c = absurd c
Counts-above a n ((v, c) ∷ h) e k (inl same) =
    let first : e.0 ≡ v = ap (λ (x : ℕ × WriterCall). x.0) same in omega (arith, first, k.0)
Counts-above a n ((v, c) ∷ h) e k (inr i) = omega (arith, Counts-above (suc a) n h e k.1 i)

pub Contains-append_left :
    {A : Type 0} (a : A) (xs ys : List A) → Contains a xs → Contains a (xs ++ ys)
Contains-append_left a [] ys c = absurd c
Contains-append_left a (x ∷ xs) ys (inl e) = inl e
Contains-append_left a (x ∷ xs) ys (inr c) = inr (Contains-append_left a xs ys c)

pub Contains-append_right :
    {A : Type 0} (a : A) (xs ys : List A) → Contains a ys → Contains a (xs ++ ys)
Contains-append_right a [] ys c = c
Contains-append_right a (x ∷ xs) ys c = inr (Contains-append_right a xs ys c)

abbrev pub call_of : ℕ × WriterCall → WriterCall
call_of e = e.1

pub Contains-calls :
    (e : ℕ × WriterCall) (h : ChangeHistory) → Contains e h → Contains e.1 (map call_of h)
Contains-calls e [] c = absurd c
Contains-calls e (x ∷ h) (inl same) = inl (ap call_of same)
Contains-calls e (x ∷ h) (inr c) = inr (Contains-calls e h c)

-- A version that the ranges ask for
abbrev pub Asked : ℕ → List Range → Type 0
Asked v [] = ⊥
Asked v (r ∷ rs) = ((r.lower ≤ v) × (v ≤ r.upper)) ⊎ Asked v rs

-- The ranges of a requester that knows the version: each is in order and ends before it.
abbrev pub AreBefore : ℕ → List Range → Type 0
AreBefore v ranges = All (λ r. (r.lower ≤ r.upper) × (r.upper < v)) ranges

module _ (m : Modular) where
  pub insert_change-Counts :
      (a n : ℕ) (c : WriterCall) (h : ChangeHistory)
      → suc n < half
      → Counts a n h
      → Counts a (suc n) (insert_change m (suc n) c h)
  unfolding insert_change
  insert_change-Counts a n c [] low e = (sym e, ap suc e)
  insert_change-Counts a n c ((v, d) ∷ h) low k =
      let b = Counts-bound (suc a) n h k.1 in
      let near : m.less_than v (suc n) ≡ true =
        less_than-ltb m v (suc n) (omega (arith, k.0)) low ∙ (ground (arith, k.0)) in
      rw near (k.0, insert_change-Counts (suc a) n c h low k.1)

  module _ (n : ℕ) (low : n < half) where
    finds-true : (a u : ℕ) (h : ChangeHistory) → Counts a n h → a ≤ u → u ≤ n → finds m u h ≡ true
    finds-true a u [] k l b = absurd (omega (arith, k))
    finds-true a u ((v, c) ∷ h) k l b =
        let below = less_than-ltb m v u (omega (arith, k.0)) (omega arith) in
        let above = less_than-ltb m u v (omega arith) (omega (arith, k.0)) in
        elim (Bool-cases (ltb v u)) [
          | inl x ↦
              let less : m.less_than v u ≡ true = below ∙ x in
              rw less (finds-true (suc a) u h k.1 (ground (arith, x, k.0)) b)
          | inr x ↦
              let less : m.less_than v u ≡ false = below ∙ x in
              let more : m.less_than u v ≡ false = above ∙ (ground (arith, k.0)) in
              rw less (rw more refl)
        ]

    record IsTail (l : ℕ) (h tail : ChangeHistory) : Type 0 where
      first : ℕ
      counts : Counts first n tail
      ends : first ≤ n
      has : (e : ℕ × WriterCall) → Contains e h → l ≤ e.0 → Contains e tail

    from_lower-IsTail :
        (a l : ℕ) (h : ChangeHistory) → Counts a n h → a ≤ n → l ≤ n → IsTail l h (from_lower m l h)
    unfolding from_lower
    from_lower-IsTail a l [] k b d = absurd (omega (arith, k))
    from_lower-IsTail a l ((v, c) ∷ h) k b d =
        let near = less_than-ltb m v l (omega (arith, k.0)) (omega arith) in
        elim (Bool-cases (ltb v l)) [
          | inl x ↦
              let less : m.less_than v l ≡ true = near ∙ x in
              let later : v < l = ground (arith, x) in
              let rest = from_lower-IsTail (suc a) l h k.1 (omega (arith, k.0, later)) d in
              rw less (record {
                first = rest.first;
                counts = rest.counts;
                ends = rest.ends;
                has = λ e i q. elim i [
                  | inl same ↦
                      let at : e.0 ≡ v = ap (λ (y : ℕ × WriterCall). y.0) same in
                      absurd (omega (arith, at, later, q))
                  | inr j ↦ rest.has e j q
                ];
              })
          | inr x ↦
              let less : m.less_than v l ≡ false = near ∙ x in
              rw less (record { first = a; counts = k; ends = b; has = λ e i q. i })
        ]

    resend_through-has :
        (a u : ℕ) (h : ChangeHistory)
        → Counts a n h
        → a ≤ n
        → u < n
        → (cs : List WriterCall) × (resend_through m u h ≡ some cs)
          × ((e : ℕ × WriterCall) → Contains e h → e.0 ≤ u → Contains e.1 cs)
    unfolding resend_through
    resend_through-has a u [] k b d = absurd (omega (arith, k))
    resend_through-has a u ((v, c) ∷ h) k b d = elim (Bool-cases (leb v u)) [
      | inl x ↦
          let within : v ≤ u = ground (arith, x) in
          let (cs, e, has) = resend_through-has (suc a) u h k.1 (omega (arith, k.0, within)) d in
          (
            c ∷ cs,
            rw x (rw e refl),
            λ f i q. elim i [ inl same ↦ inl (ap call_of same) | inr j ↦ inr (has f j q) ],
          )
      | inr x ↦ (
        [],
        rw x refl,
        λ f i q.
            let l = Counts-above a n ((v, c) ∷ h) f k i in
            let past : u < v = ground (arith, x) in absurd (omega (arith, l, past, q, k.0)),
      )
    ]

    finds-nonempty : (a u : ℕ) (h : ChangeHistory) → Counts a n h → finds m u h ≡ true → a ≤ n
    finds-nonempty a u [] k f = absurd (cc)
    finds-nonempty a u ((v, c) ∷ h) k f = omega (arith, Counts-bound (suc a) n h k.1)

    pub resend_ranges-has :
        (a v : ℕ) (h : ChangeHistory) (ranges : List Range)
        → Counts a n h
        → v ≤ n
        → AreBefore v ranges
        → (cs : List WriterCall) × (resend_ranges m ranges h ≡ some cs)
          × ((e : ℕ × WriterCall) → Contains e h → Asked e.0 ranges → Contains e.1 cs)
    unfolding resend_ranges
    resend_ranges-has a v h [] k b r = ([], refl, λ e i q. absurd q)
    resend_ranges-has a v h (r ∷ rs) k b (x, xs) =
        let (later, rest, has) = resend_ranges-has a v h rs k b xs in
        elim (Bool-cases (finds m r.upper h)) [
          | inl f ↦
              let tail =
                from_lower-IsTail a r.lower h k (finds-nonempty a r.upper h k f)
                  (omega (arith, x.0, x.1)) in
              let (now, sends, hasnow) =
                resend_through-has tail.first r.upper (from_lower m r.lower h) tail.counts tail.ends
                  (omega (arith, x.1)) in
              (
                now ++ later,
                rw f (
                    ap (λ (y : Option (List WriterCall)). joined m y (resend_ranges m rs h)) sends
                    ∙ ap (λ (y : Option (List WriterCall)). joined m (some now) y) rest),
                λ e i q. elim q [
                  | inl y ↦ Contains-append_left e.1 now later (hasnow e (tail.has e i y.0) y.1)
                  | inr y ↦ Contains-append_right e.1 now later (has e i y)
                ],
              )
          | inr f ↦ (
            later,
            rw f rest,
            λ e i q. elim q [
              | inl y ↦
                  let first = Counts-above a n h e k i in
                  let found =
                    finds-true a r.upper h k (omega (arith, first, y.1)) (omega (arith, x.1)) in
                  absurd (cc)
              | inr y ↦ has e i y
            ],
          )
        ]

    pub from_upper-has :
        (a v : ℕ) (h : ChangeHistory)
        → Counts a n h
        → v ≤ n
        → (e : ℕ × WriterCall) → Contains e h
        → v < e.0
        → Contains e (from_upper m v h)
    unfolding from_upper
    from_upper-has a v [] k b e i q = absurd i
    from_upper-has a v ((w, c) ∷ h) k b e i q =
        let first = Counts-bound (suc a) n h k.1 in
        let near = less_than-ltb m v w (omega arith) (omega (arith, k.0)) in
        elim (Bool-cases (ltb v w)) [
          | inl x ↦ let less : m.less_than v w ≡ true = near ∙ x in rw less i
          | inr x ↦
              let less : m.less_than v w ≡ false = near ∙ x in
              let past : w ≤ v = ground (arith, x) in
              rw less (elim i [
                | inl same ↦
                    let at : e.0 ≡ w = ap (λ (y : ℕ × WriterCall). y.0) same in
                    absurd (omega (arith, at, past, q))
                | inr j ↦ from_upper-has (suc a) v h k.1 b e j q
              ])
        ]
