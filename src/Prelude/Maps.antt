-- ===== src/Prelude/Maps.antt =====
-- A map with string keys, as an association list whose order stands for the order of iteration.
use Prim.Native.String.{String}
use mathlib.Core.Path.{◌≡◌, refl, subst}
use mathlib.Core.Logic.{inl, inr}
use mathlib.Core.Option.{Option, none, some, some-injective}
use mathlib.Core.List.{List, [], ◌∷◌}
use native.Mathlib.Omega.{arith}
use text.Mathlib.TextEquality.{eq_iff}
use Prim.Native.Nat.{ℕ, ◌+◌}
use mathlib.Core.Bool.{Bool, false, ◌||◌}
use rxdaemon.Prelude.Tests.{str_eq, if◌then◌else◌, ◌==◌, Bool-cases}
use rxdaemon.Prelude.Lists.{length, All}

abbrev pub Dict {ℓ} : Type ℓ → Type ℓ
Dict V = List (String × V)

module _ {ℓ} {V : Type ℓ} where
  -- `v, ok := m[k]`
  unfoldable pub lookup : String → Dict V → Option V
  lookup key [] = none
  lookup key ((name, value) ∷ rest) = if str_eq name key then some value else lookup key rest

  -- `delete(m, k)`
  unfoldable pub delete : String → Dict V → Dict V
  delete key [] = []
  delete key ((name, value) ∷ entries) =
      let rest = delete key entries in if str_eq name key then rest else (name, value) ∷ rest

  -- `m[k] = v`
  unfoldable pub insert : String → V → Dict V → Dict V
  insert key new [] = (key, new) ∷ []
  insert key new ((name, value) ∷ rest) =
      if str_eq name key then (key, new) ∷ rest else (name, value) ∷ insert key new rest

  pub lookup-insert :
      (key name : String) (new : V) (entries : Dict V)
      → lookup name (insert key new entries)
        ≡ (if str_eq key name then some new else lookup name entries)
  unfolding insert lookup
  lookup-insert key name new [] = refl
  lookup-insert key name new ((other, value) ∷ rest) =
      ground (
        arith,
        lookup-insert key name new rest,
        eq_iff other key,
        eq_iff other name,
        eq_iff key name,
      )

  pub lookup-delete :
      (k j : String) (m : Dict V)
      → lookup j (delete k m) ≡ (if str_eq k j then none else lookup j m)
  unfolding lookup delete
  lookup-delete k j [] = ground arith
  lookup-delete k j ((i, w) ∷ m) =
      ground (arith, lookup-delete k j m, eq_iff i k, eq_iff i j, eq_iff k j)

  pub insert-ne-nil : (k : String) (v : V) (m : Dict V) → insert k v m ≡ [] → ⊥
  unfolding insert
  insert-ne-nil k v [] h = cc
  insert-ne-nil k v ((j, w) ∷ m) h = ground arith

pub ruleset dict_laws = (lookup-insert, lookup-delete)

module _ {ℓ} {V : Type ℓ} where
  abbrev pub missing : Option V → ℕ
  missing none = 1
  missing (some v) = 0

  pub length-insert :
      (k : String) (v : V) (m : Dict V) → length (insert k v m) ≡ length m + missing (lookup k m)
  unfolding insert lookup
  length-insert k v [] = omega arith
  length-insert k v ((j, w) ∷ m) = ground (arith, length-insert k v m)

-- `k` stands in the list, and the list holds no text twice.
abbrev pub contains : String → List String → Bool
contains k [] = false
contains k (j ∷ js) = str_eq j k || contains k js

abbrev pub Distinct : List String → Type 0
Distinct [] = Unit {0}
Distinct (k ∷ ks) = (contains k ks ≡ false) × Distinct ks

module _ {ℓ} {V : Type ℓ} where
  abbrev pub keys : Dict V → List String
  keys [] = []
  keys ((k, v) ∷ m) = k ∷ keys m

  -- The first of two results that is there.
  abbrev pub or_else : Option V → Option V → Option V
  or_else none o = o
  or_else (some v) o = some v

  pub lookup-not-contains :
      (k : String) (m : Dict V) → contains k (keys m) ≡ false → lookup k m ≡ none
  unfolding lookup
  lookup-not-contains k [] h = refl
  lookup-not-contains k ((j, v) ∷ m) h = ground (arith, lookup-not-contains k m, eq_iff j k)

  contains-insert_ne :
      (j k : String) (v : V) (m : Dict V)
      → str_eq k j ≡ false
      → contains j (keys (insert k v m)) ≡ contains j (keys m)
  unfolding insert
  contains-insert_ne j k v [] h = ground arith
  contains-insert_ne j k v ((i, w) ∷ m) h =
      ground (arith, contains-insert_ne j k v m h, eq_iff i k, eq_iff i j, eq_iff k j)

  -- A write keeps the keys distinct.
  pub insert-Distinct :
      (k : String) (v : V) (m : Dict V) → Distinct (keys m) → Distinct (keys (insert k v m))
  unfolding insert
  insert-Distinct k v [] d = (refl, tt)
  insert-Distinct k v ((i, w) ∷ m) d =
      ground (arith, eq_iff i k, eq_iff k i, insert-Distinct k v m d.1, contains-insert_ne i k v m)

-- A write to a heap that is a function of the address.
abbrev pub update {ℓ} : {A : Type ℓ} → (ℕ → A) → ℕ → A → ℕ → A
update f k v j = if j == k then v else f j

pub update-same {ℓ} : {A : Type ℓ} (f : ℕ → A) (k : ℕ) (v : A) → update f k v k ≡ v
update-same f k v = ground arith

module _ {ℓ κ} {V : Type ℓ} (P : String × V → Type κ) where
  pub All-insert : (k : String) (v : V) (m : Dict V) → All P m → P (k, v) → All P (insert k v m)
  unfolding insert
  All-insert k v [] a p = (p, tt)
  All-insert k v ((j, w) ∷ m) a p = elim (Bool-cases (str_eq j k)) [
    | inl y ↦ rw y (p, a.1)
    | inr n ↦ rw n (a.0, All-insert k v m a.1 p)
  ]

  pub All-delete : (k : String) (m : Dict V) → All P m → All P (delete k m)
  unfolding delete
  All-delete k [] a = tt
  All-delete k ((j, w) ∷ m) a = elim (Bool-cases (str_eq j k)) [
    | inl y ↦ rw y (All-delete k m a.1)
    | inr n ↦ rw n (a.0, All-delete k m a.1)
  ]

  pub All-lookup : (k : String) (v : V) (m : Dict V) → All P m → lookup k m ≡ some v → P (k, v)
  unfolding lookup
  All-lookup k v [] a h = cc
  All-lookup k v ((j, w) ∷ m) a h = elim (Bool-cases (str_eq j k)) [
    | inl y ↦ subst P (λ i. ((eq_iff j k).0 y i, some-injective w v (rw y at h) i)) a.0
    | inr n ↦ All-lookup k v m a.1 (rw n at h)
  ]

module _ {ℓ} {V : Type ℓ} where
  contains-delete :
      (j k : String) (m : Dict V)
      → contains j (keys m) ≡ false
      → contains j (keys (delete k m)) ≡ false
  unfolding delete
  contains-delete j k [] h = refl
  contains-delete j k ((i, w) ∷ m) h = ground (arith, contains-delete j k m)

  pub delete-Distinct : (k : String) (m : Dict V) → Distinct (keys m) → Distinct (keys (delete k m))
  unfolding delete
  delete-Distinct k [] d = tt
  delete-Distinct k ((i, w) ∷ m) d =
      ground (arith, delete-Distinct k m d.1, contains-delete i k m d.0)
