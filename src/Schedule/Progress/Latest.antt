-- ===== src/Schedule/Progress/Latest.antt =====
-- ProgressBuffer: the reports that it has had, and what it gives back.
use rmf_traffic.Base.{
  ℕ, zero, suc, ◌+◌, ◌-◌, ◌≤◌, ◌<◌, max, ◌≡◌, refl, sym, ap, ◌&&◌, ◌∙◌, inl, inr, Option, List, [],
  ◌∷◌, ◌++◌, length, get_or, set, replicate, length-append, length-replicate, arith, ltb, ◌==◌,
  Bool-cases, if◌then◌else◌,
}
use rmf_traffic.Base.Modular.{Modular}
use rmf_traffic.Base.Assoc.{insert, lookup_or, lookup_or-insert_same, lookup_or-insert_other}
use rmf_traffic.Schedule.Progress.{
  Progress, no_progress, resized, resize, update, ProgressBuffer, buff, erase_through, pull,
}

abbrev zeros : ℕ → List ℕ
zeros n = replicate n 0

length-zeros : (n : ℕ) → length (zeros n) ≡ n
length-zeros n = length-replicate n 0

get_or-replicate : (n i : ℕ) → get_or (zeros n) i 0 ≡ 0
get_or-replicate zero i = refl
get_or-replicate (suc n) zero = refl
get_or-replicate (suc n) (suc i) = get_or-replicate n i

get_or-append_zeros : (xs : List ℕ) (n i : ℕ) → get_or (xs ++ zeros n) i 0 ≡ get_or xs i 0
get_or-append_zeros [] n i = get_or-replicate n i
get_or-append_zeros (x ∷ xs) n zero = refl
get_or-append_zeros (x ∷ xs) n (suc i) = get_or-append_zeros xs n i

-- New entries of a resized list are at the start of their routes.
get_or-resized : (size i : ℕ) (xs : List ℕ) → get_or (resized size xs) i 0 ≡ get_or xs i 0
unfolding resized
get_or-resized size i xs = elim (Bool-cases (ltb (length xs) size)) [
  | inl b ↦ rw b (get_or-append_zeros xs (size - length xs) i)
  | inr b ↦ rw b refl
]

length-resized : (size : ℕ) (xs : List ℕ) → size ≤ length (resized size xs)
unfolding resized
length-resized size xs =
    ground (arith, length-append xs (zeros (size - length xs)), length-zeros (size - length xs))

get_or-set :
    (xs : List ℕ) (i j v : ℕ)
    → i < length xs
    → get_or (set xs i v) j 0 ≡ (if i == j then v else get_or xs j 0)
get_or-set [] i j v h = absurd (omega arith)
get_or-set (x ∷ xs) zero zero v h = refl
get_or-set (x ∷ xs) zero (suc j) v h = ground arith
get_or-set (x ∷ xs) (suc i) zero v h = ground arith
get_or-set (x ∷ xs) (suc i) (suc j) v h = ground (arith, get_or-set xs i j v)

-- What a route has reached after an update
update_reached :
    (route checkpoint : ℕ) (version : Option ℕ) (p : Progress) (j : ℕ)
    → get_or (update route checkpoint version p).0.reached_checkpoints j 0 ≡ (
        if route == j
        then max (get_or p.reached_checkpoints j 0) checkpoint
        else get_or p.reached_checkpoints j 0)
unfolding update
update_reached route checkpoint version p j = ground (
  arith,
  get_or-resized (route + 1) j p.reached_checkpoints,
  get_or-resized (route + 1) route p.reached_checkpoints,
  get_or-set (resized (route + 1) p.reached_checkpoints) route j checkpoint,
  length-resized (route + 1) p.reached_checkpoints,
)

-- A report: the plan, the route, the checkpoint, and the version of the progress if it has one
abbrev pub Report : Type 0
Report = ℕ × ℕ × ℕ × Option ℕ

pub buff_all : List Report → ProgressBuffer → ProgressBuffer
unfolding buff
buff_all [] buffer = buffer
buff_all ((plan, route, checkpoint, version) ∷ reports) buffer =
    buff_all reports (buff plan route checkpoint version buffer)

-- The furthest checkpoint that is reported for a route of a plan
pub furthest : ℕ → ℕ → List Report → ℕ
furthest plan route [] = 0
furthest plan route ((q, r, c, version) ∷ reports) =
    if (q == plan) && (r == route)
    then max c (furthest plan route reports)
    else furthest plan route reports

-- What a route of a plan has reached in a buffer
abbrev pub reached_in : ℕ → ℕ → ProgressBuffer → ℕ
reached_in plan route buffer =
    get_or (lookup_or plan no_progress buffer).reached_checkpoints route 0

reached_in-buff :
    (plan q r c : ℕ) (version : Option ℕ) (route : ℕ) (buffer : ProgressBuffer)
    → reached_in plan route (buff q r c version buffer) ≡ (
        if (q == plan) && (r == route)
        then max (reached_in plan route buffer) c
        else reached_in plan route buffer)
unfolding buff
reached_in-buff plan q r c version route buffer = elim (Bool-cases (q == plan)) [
  | inl e ↦
      let here : q ≡ plan = ground (arith, e) in
      let found : lookup_or plan no_progress (buff q r c version buffer)
          ≡ (update r c version (lookup_or q no_progress buffer)).0 =
        lookup_or-insert_same plan q no_progress
          (update r c version (lookup_or q no_progress buffer)).0 buffer e in
      let at : reached_in q route buffer ≡ reached_in plan route buffer =
        ap (λ n. reached_in n route buffer) here in
      ap (λ (p : Progress). get_or p.reached_checkpoints route 0) found
      ∙ update_reached r c version (lookup_or q no_progress buffer) route
      ∙ ground (arith, e, at)
  | inr e ↦
      let found : lookup_or plan no_progress (buff q r c version buffer)
          ≡ lookup_or plan no_progress buffer =
        lookup_or-insert_other plan q no_progress
          (update r c version (lookup_or q no_progress buffer)).0 buffer e in
      ap (λ (p : Progress). get_or p.reached_checkpoints route 0) found ∙ ground (arith, e)
]

reached_in-buff_all :
    (plan route : ℕ) (reports : List Report) (buffer : ProgressBuffer)
    → reached_in plan route (buff_all reports buffer)
      ≡ max (reached_in plan route buffer) (furthest plan route reports)
unfolding buff_all furthest
reached_in-buff_all plan route [] buffer = ground arith
reached_in-buff_all plan route ((q, r, c, version) ∷ reports) buffer = ground (
  arith,
  reached_in-buff_all plan route reports (buff q r c version buffer),
  reached_in-buff plan q r c version route buffer,
)

-- `_buffer[plan]` changes nothing that is read.
lookup_or-insert_self :
    (q plan : ℕ) (buffer : ProgressBuffer)
    → lookup_or q no_progress (insert plan (lookup_or plan no_progress buffer) buffer)
      ≡ lookup_or q no_progress buffer
lookup_or-insert_self q plan buffer = elim (Bool-cases (plan == q)) [
  | inl e ↦
      let here : plan ≡ q = ground (arith, e) in
      lookup_or-insert_same q plan no_progress (lookup_or plan no_progress buffer) buffer e
      ∙ ap (λ n. lookup_or n no_progress buffer) here
  | inr e ↦ lookup_or-insert_other q plan no_progress (lookup_or plan no_progress buffer) buffer e
]

module _ (m : Modular) where
  lookup_or-erase_through :
      (plan p : ℕ) (buffer : ProgressBuffer)
      → lookup_or p no_progress (erase_through m plan buffer)
        ≡ (if m.less_than_or_equal p plan then no_progress else lookup_or p no_progress buffer)
  unfolding erase_through
  lookup_or-erase_through plan p [] = elim (Bool-cases (m.less_than_or_equal p plan)) [
    | inl b ↦ rw b refl
    | inr b ↦ rw b refl
  ]
  lookup_or-erase_through plan p ((k, x) ∷ buffer) =
      let rest = lookup_or-erase_through plan p buffer in
      elim (Bool-cases (k == p)) [
        | inl q ↦
            let here : k ≡ p = ground (arith, q) in
            let same : m.less_than_or_equal k plan ≡ m.less_than_or_equal p plan =
              ap (λ n. m.less_than_or_equal n plan) here in
            elim (Bool-cases (m.less_than_or_equal k plan)) [
              | inl b ↦ rw b (rest ∙ rw (sym same ∙ b) refl)
              | inr b ↦ rw (b, sym same ∙ b, q) refl
            ]
        | inr q ↦ elim (Bool-cases (m.less_than_or_equal k plan)) [
          | inl b ↦ rw (b, q) rest
          | inr b ↦ rw (b, q) rest
        ]
      ]

  -- A buffer that has had any reports gives, for a plan, at least as many routes as asked for, each
  -- at the furthest checkpoint reported for it, or at its start; what is left are the reports of the
  -- plans that are not, modularly, up to this one.
  pub pull-furthest :
      (reports : List Report) (plan size route q : ℕ)
      → let (progress, buffer) = pull m plan size (buff_all reports []) in
        (size ≤ length progress.reached_checkpoints)
        × (get_or progress.reached_checkpoints route 0 ≡ furthest plan route reports)
        × (reached_in q route buffer
            ≡ (if m.less_than_or_equal q plan then 0 else furthest q route reports))
  unfolding pull resize
  pull-furthest reports plan size route q =
      let buffer = buff_all reports [] in
      let found = lookup_or plan no_progress buffer in
      let of_plan = reached_in-buff_all plan route reports [] in
      let of_q : reached_in q route buffer ≡ furthest q route reports =
        ground (arith, reached_in-buff_all q route reports []) in
      (
        length-resized size found.reached_checkpoints,
        get_or-resized size route found.reached_checkpoints ∙ ground (arith, of_plan),
        ap (λ (p : Progress). get_or p.reached_checkpoints route 0)
              (lookup_or-erase_through plan q (insert plan found buffer))
            ∙ left buffer of_q (lookup_or-insert_self q plan buffer),
      )
    where
      left :
          (buffer : ProgressBuffer)
          → reached_in q route buffer ≡ furthest q route reports
          → lookup_or q no_progress (insert plan (lookup_or plan no_progress buffer) buffer)
            ≡ lookup_or q no_progress buffer
          → get_or
              (if m.less_than_or_equal q plan
                then no_progress
                else lookup_or q no_progress
                    (insert plan (lookup_or plan no_progress buffer) buffer)).reached_checkpoints
              route
              0
            ≡ (if m.less_than_or_equal q plan then 0 else furthest q route reports)
      left buffer e f = elim (Bool-cases (m.less_than_or_equal q plan)) [
        | inl b ↦ rw b refl
        | inr b ↦ rw (b, f) e
      ]
