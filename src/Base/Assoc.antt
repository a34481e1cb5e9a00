-- ===== src/Base/Assoc.antt =====
-- Maps keyed by numbers, as association lists. The model of a std::unordered_map keeps a key
-- once; the order of its entries is the order in which the code's loops meet them.
use Prim.Native.Nat.{ℕ}
use mathlib.Core.Path.{◌≡◌, refl, sym, ◌∙◌}
use mathlib.Core.Logic.{inl, inr}
use mathlib.Core.Bool.{true, false}
use mathlib.Core.List.{List, [], ◌∷◌}
use mathlib.Core.Option.{Option, none, some, some-injective}
use native.Mathlib.Omega.{arith}
use rmf_traffic.Base.Tests.{◌==◌, Bool-cases, if◌then◌else◌}

abbrev pub Assoc {ℓ} : Type ℓ → Type ℓ
Assoc V = List (ℕ × V)

module _ {ℓ} {V : Type ℓ} where
  abbrev pub lookup : ℕ → Assoc V → Option V
  lookup k [] = none
  lookup k ((j, v) ∷ m) = if j == k then some v else lookup k m

  -- insert_or_assign and operator[] with an assignment
  abbrev pub insert : ℕ → V → Assoc V → Assoc V
  insert k v [] = (k, v) ∷ []
  insert k v ((j, w) ∷ m) = if j == k then (k, v) ∷ m else (j, w) ∷ insert k v m

  abbrev pub erase : ℕ → Assoc V → Assoc V
  erase k [] = []
  erase k ((j, w) ∷ m) = if j == k then erase k m else (j, w) ∷ erase k m

  pub lookup-insert :
      (j k : ℕ) (v : V) (m : Assoc V)
      → lookup j (insert k v m) ≡ (if k == j then some v else lookup j m)
  lookup-insert j k v [] = refl
  lookup-insert j k v ((i, w) ∷ m) = ground (arith, lookup-insert j k v m)

  pub lookup-erase :
      (j k : ℕ) (m : Assoc V) → lookup j (erase k m) ≡ (if k == j then none else lookup j m)
  lookup-erase j k [] = ground arith
  lookup-erase j k ((i, w) ∷ m) = ground (arith, lookup-erase j k m)

module _ {ℓ} {V : Type ℓ} where
  -- insert: an entry that is there stays.
  abbrev pub emplace : ℕ → V → Assoc V → Assoc V
  emplace k v [] = (k, v) ∷ []
  emplace k v ((j, w) ∷ m) = if j == k then (j, w) ∷ m else (j, w) ∷ emplace k v m

  -- operator[]: the value, or the given one where there is none.
  abbrev pub lookup_or : ℕ → V → Assoc V → V
  lookup_or k d [] = d
  lookup_or k d ((j, v) ∷ m) = if j == k then v else lookup_or k d m

  lookup-emplace :
      (j k : ℕ) (v : V) (m : Assoc V)
      → lookup j (emplace k v m) ≡ (if k == j then some (lookup_or k v m) else lookup j m)
  lookup-emplace j k v [] = refl
  lookup-emplace j k v ((i, w) ∷ m) = ground (arith, lookup-emplace j k v m)

module _ {ℓ} {V : Type ℓ} where
  pub lookup_or-insert :
      (j k : ℕ) (d v : V) (m : Assoc V)
      → lookup_or j d (insert k v m) ≡ (if k == j then v else lookup_or j d m)
  lookup_or-insert j k d v [] = refl
  lookup_or-insert j k d v ((i, w) ∷ m) = ground (arith, lookup_or-insert j k d v m)

module _ {ℓ} {V : Type ℓ} where
  pub lookup_or-insert_same :
      (j k : ℕ) (d v : V) (m : Assoc V) → (k == j) ≡ true → lookup_or j d (insert k v m) ≡ v
  lookup_or-insert_same j k d v m e = lookup_or-insert j k d v m ∙ (rw e refl)

  pub lookup_or-insert_other :
      (j k : ℕ) (d v : V) (m : Assoc V)
      → (k == j) ≡ false
      → lookup_or j d (insert k v m) ≡ lookup_or j d m
  lookup_or-insert_other j k d v m e = lookup_or-insert j k d v m ∙ (rw e refl)

-- The same keys, with other values.
abbrev pub map_values {ℓ κ} : {V : Type ℓ} {W : Type κ} → (ℕ → V → W) → Assoc V → Assoc W
map_values f [] = []
map_values f ((k, v) ∷ m) = (k, f k v) ∷ map_values f m

module _ {ℓ} {V : Type ℓ} where
  pub lookup_head :
      (k j : ℕ) (v : V) (m : Assoc V) → (k == j) ≡ true → lookup j ((k, v) ∷ m) ≡ some v
  lookup_head k j v m e = rw e refl

  pub lookup_tail :
      (k j : ℕ) (v : V) (m : Assoc V) → (k == j) ≡ false → lookup j ((k, v) ∷ m) ≡ lookup j m
  lookup_tail k j v m e = rw e refl

module _ {ℓ κ} {V : Type ℓ} {W : Type κ} where
  pub lookup-map_values :
      (f : ℕ → V → W) (j : ℕ) (v : V) (m : Assoc V)
      → lookup j m ≡ some v
      → lookup j (map_values f m) ≡ some (f j v)
  lookup-map_values f j v [] h = absurd (cc)
  lookup-map_values f j v ((i, w) ∷ m) h = elim (Bool-cases (i == j)) [
    | inl e ↦
        let here : i ≡ j = ground (arith, e) in
        let same : w ≡ v = some-injective w v (sym (lookup_head i j w m e) ∙ h) in
        lookup_head i j (f i w) (map_values f m) e ∙ rw (here, same) refl
    | inr e ↦
        lookup_tail i j (f i w) (map_values f m) e
        ∙ lookup-map_values f j v m (sym (lookup_tail i j w m e) ∙ h)
  ]
