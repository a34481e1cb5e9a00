-- ===== src/Schedule/Patch/Filled.antt =====
-- schedule/Database.cpp: the std::map of delays that the entries of several routes fill.
use rmf_traffic.Base.{
  ℕ, ◌<◌, ◌≡◌, refl, ap, ◌∙◌, inl, inr, ◌⊎◌, true, false, List, [], ◌∷◌, ltb, ◌==◌, arith,
  Bool-cases, All, map,
}
use rmf_traffic.Base.Int.{ℤ}
use rmf_traffic.Route.{Route, delayed}
use rmf_traffic.Schedule.Patch.{insert_delay}
use rmf_traffic.Schedule.Patch.Log.{DelayLog, Descends, recent, delayed_by}
use rmf_traffic.Schedule.Patch.Collected.{insert_all}

-- The delays in the order of their versions
abbrev pub onto : DelayLog → List (ℕ × ℤ) → List (ℕ × ℤ)
onto [] ds = ds
onto ((v, d) ∷ log) ds = onto log ((v, d) ∷ ds)

abbrev Ascends : List (ℕ × ℤ) → Type 0
Ascends [] = Unit
Ascends ((v, d) ∷ ds) = All (λ e. v < e.0) ds × Ascends ds

abbrev HasKey : ℕ → List (ℕ × ℤ) → Type 0
HasKey v [] = ⊥
HasKey v ((w, d) ∷ ds) = (v ≡ w) ⊎ HasKey v ds

insert_delay_first :
    (v : ℕ) (d : ℤ) (ds : List (ℕ × ℤ)) → All (λ e. v < e.0) ds → insert_delay v d ds ≡ (v, d) ∷ ds
unfolding insert_delay
insert_delay_first v d [] a = refl
insert_delay_first v d ((w, e) ∷ ds) a =
    let x : ltb w v ≡ false = ground (arith, a.0) in
    let y : (w == v) ≡ false = ground (arith, a.0) in rw (x, y) refl

HasKey-above : (v w : ℕ) (ds : List (ℕ × ℤ)) → All (λ e. v < e.0) ds → HasKey w ds → v < w
HasKey-above v w [] a h = absurd h
HasKey-above v w ((u, d) ∷ ds) a (inl h) = omega (arith, a.0)
HasKey-above v w ((u, d) ∷ ds) a (inr h) = HasKey-above v w ds a.1 h

insert_delay_again :
    (v : ℕ) (d : ℤ) (ds : List (ℕ × ℤ)) → Ascends ds → HasKey v ds → insert_delay v d ds ≡ ds
unfolding insert_delay
insert_delay_again v d [] a h = absurd h
insert_delay_again v d ((w, e) ∷ ds) a (inl h) =
    let x : ltb w v ≡ false = ground (arith, h) in
    let y : (w == v) ≡ true = ground (arith, h) in rw (x, y) refl
insert_delay_again v d ((w, e) ∷ ds) a (inr h) =
    let x : ltb w v ≡ true = ground (arith, HasKey-above w v ds a.0 h) in
    rw x (ap (λ (y : List (ℕ × ℤ)). (w, e) ∷ y) (insert_delay_again v d ds a.1 h))

-- Every delay of the log comes before every one of the map.
abbrev Under : DelayLog → List (ℕ × ℤ) → Type 0
Under log ds = All (λ (r : ℕ × ℤ). All (λ (e : ℕ × ℤ). r.0 < e.0) ds) log

Under-cons :
    (v : ℕ) (d : ℤ) (log ds : List (ℕ × ℤ))
    → All (λ e. e.0 < v) log
    → Under log ds
    → Under log ((v, d) ∷ ds)
Under-cons v d [] ds a u = tt
Under-cons v d (r ∷ log) ds a u = ((a.0, u.0), Under-cons v d log ds a.1 u.1)

Under-nil : (log : DelayLog) → Under log []
Under-nil [] = tt
Under-nil (r ∷ log) = (tt, Under-nil log)

insert_all-onto :
    (log : DelayLog) (ds : List (ℕ × ℤ))
    → Descends log
    → Under log ds
    → insert_all log ds ≡ onto log ds
insert_all-onto [] ds h u = refl
insert_all-onto ((v, d) ∷ log) ds h u =
    ap (insert_all log) (insert_delay_first v d ds u.0)
    ∙ insert_all-onto log ((v, d) ∷ ds) h.1 (Under-cons v d log ds h.0 u.1)

onto-Ascends :
    (log : DelayLog) (ds : List (ℕ × ℤ))
    → Descends log
    → Under log ds
    → Ascends ds
    → Ascends (onto log ds)
onto-Ascends [] ds h u a = a
onto-Ascends ((v, d) ∷ log) ds h u a =
    onto-Ascends log ((v, d) ∷ ds) h.1 (Under-cons v d log ds h.0 u.1) (u.0, a)

HasKey-onto : (w : ℕ) (log : DelayLog) (ds : List (ℕ × ℤ)) → HasKey w ds → HasKey w (onto log ds)
HasKey-onto w [] ds h = h
HasKey-onto w ((v, d) ∷ log) ds h = HasKey-onto w log ((v, d) ∷ ds) (inr h)

onto-HasKey : (log : DelayLog) (ds : List (ℕ × ℤ)) → All (λ r. HasKey r.0 (onto log ds)) log
onto-HasKey [] ds = tt
onto-HasKey ((v, d) ∷ log) ds =
    (HasKey-onto v log ((v, d) ∷ ds) (inl refl), onto-HasKey log ((v, d) ∷ ds))

insert_all_again :
    (log : DelayLog) (ds : List (ℕ × ℤ))
    → Ascends ds
    → All (λ r. HasKey r.0 ds) log
    → insert_all log ds ≡ ds
insert_all_again [] ds a h = refl
insert_all_again ((v, d) ∷ log) ds a h =
    ap (insert_all log) (insert_delay_again v d ds a h.0) ∙ insert_all_again log ds a h.1

-- A first route fills the map, and any further one finds it filled.
pub insert_all-delays :
    (log : DelayLog) (ds : List (ℕ × ℤ))
    → Descends log
    → (ds ≡ []) ⊎ (ds ≡ onto log [])
    → insert_all log ds ≡ onto log []
insert_all-delays log ds h (inl e) =
    ap (insert_all log) e ∙ insert_all-onto log [] h (Under-nil log)
insert_all-delays log ds h (inr e) =
    ap (insert_all log) e
    ∙ insert_all_again log (onto log []) (onto-Ascends log [] h (Under-nil log) tt)
        (onto-HasKey log [])

-- What a mirror makes of a route, the oldest delay first
abbrev pub delay_in_turn : List ℤ → Route → Route
delay_in_turn [] r = r
delay_in_turn (d ∷ ds) r = delay_in_turn ds (delayed d r)

pub delay_in_turn-onto :
    (log : DelayLog) (ds : List (ℕ × ℤ)) (r : Route)
    → delay_in_turn (map (λ (e : ℕ × ℤ). e.1) (onto log ds)) r
      ≡ delay_in_turn (map (λ (e : ℕ × ℤ). e.1) ds) (delayed_by log r)
delay_in_turn-onto [] ds r = refl
delay_in_turn-onto ((v, d) ∷ log) ds r = delay_in_turn-onto log ((v, d) ∷ ds) r

Descends-recent-below :
    (after v : ℕ) (log : DelayLog) → All (λ e. e.0 < v) log → All (λ e. e.0 < v) (recent after log)
Descends-recent-below after v [] a = tt
Descends-recent-below after v ((w, d) ∷ log) a = elim (Bool-cases (ltb after w)) [
  | inl e ↦ rw e (a.0, Descends-recent-below after v log a.1)
  | inr e ↦ rw e tt
]

pub recent-Descends : (after : ℕ) (log : DelayLog) → Descends log → Descends (recent after log)
recent-Descends after [] h = tt
recent-Descends after ((w, d) ∷ log) h = elim (Bool-cases (ltb after w)) [
  | inl e ↦ rw e (Descends-recent-below after w log h.0, recent-Descends after log h.1)
  | inr e ↦ rw e tt
]
