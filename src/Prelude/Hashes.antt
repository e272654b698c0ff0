-- ===== src/Prelude/Hashes.antt =====
-- QHash as an association list. The order in which QHash iterates is not specified; here it is the
-- order of the list.
use mathlib.Core.Path.{◌≡◌, refl}
use mathlib.Core.Bool.{Bool, true, false, ◌||◌}
use mathlib.Core.List.{List, [], ◌∷◌}
use mathlib.Core.Option.{Option, none, some}
use native.Mathlib.Omega.{arith}
use kactivitymanagerd.Prelude.Tests.{Eq, ◌==◌, if◌then◌else◌}
use kactivitymanagerd.Prelude.Lists.{contains, Distinct}

abbrev pub Hash {ℓ} : Type 0 → Type ℓ → Type ℓ
Hash K V = List (K × V)

abbrev pub is_some {ℓ} : {A : Type ℓ} → Option A → Bool
is_some none = false
is_some (some a) = true

abbrev pub or_default {ℓ} : {A : Type ℓ} → Option A → A → A
or_default none d = d
or_default (some a) d = a

module _ {ℓ} {K : Type 0} {V : Type ℓ} ⦃e : Eq K⦄ where
  unfoldable pub lookup : K → Hash K V → Option V
  lookup k [] = none
  lookup k ((j, v) ∷ m) = if j == k then some v else lookup k m

  unfoldable pub remove : K → Hash K V → Hash K V
  remove k [] = []
  remove k ((j, w) ∷ m) = let rest = remove k m in if j == k then rest else (j, w) ∷ rest

  -- `m[k] = v`
  unfoldable pub insert : K → V → Hash K V → Hash K V
  insert k v [] = (k, v) ∷ []
  insert k v ((j, w) ∷ m) = let rest = insert k v m in if j == k then (k, v) ∷ m else (j, w) ∷ rest

  abbrev pub keys : Hash K V → List K
  keys [] = []
  keys ((k, v) ∷ m) = k ∷ keys m

  abbrev pub has_key : Hash K V → K → Bool
  has_key m k = is_some (lookup k m)

  pub lookup-remove :
      (k j : K) (m : Hash K V) → lookup j (remove k m) ≡ (if k == j then none else lookup j m)
  unfolding lookup remove
  lookup-remove k j [] = ground arith
  lookup-remove k j ((i, w) ∷ m) =
      ground (arith, e.beq_iff k j, e.beq_iff i k, e.beq_iff i j, lookup-remove k j m)

  pub lookup-insert :
      (k l : K) (v : V) (h : Hash K V)
      → lookup l (insert k v h) ≡ (if k == l then some v else lookup l h)
  unfolding insert lookup
  lookup-insert k l v [] = refl
  lookup-insert k l v ((x, y) ∷ h) =
      ground (lookup-insert k l v h, e.beq_iff x l, e.beq_iff x k, e.beq_iff k l, arith)

  pub contains-keys : (k : K) (m : Hash K V) → contains (keys m) k ≡ has_key m k
  unfolding lookup contains
  contains-keys k [] = refl
  contains-keys k ((i, w) ∷ m) = ground (arith, contains-keys k m)

  pub contains-keys-insert :
      (k j : K) (v : V) (m : Hash K V)
      → contains (keys (insert k v m)) j ≡ (k == j || contains (keys m) j)
  unfolding contains insert
  contains-keys-insert k j v [] = refl
  contains-keys-insert k j v ((i, w) ∷ m) =
      ground (arith, e.beq_iff i k, e.beq_iff i j, e.beq_iff k j, contains-keys-insert k j v m)

  pub contains-keys-remove :
      (k j : K) (m : Hash K V)
      → contains (keys (remove k m)) j ≡ (if k == j then false else contains (keys m) j)
  unfolding contains remove
  contains-keys-remove k j [] = ground arith
  contains-keys-remove k j ((i, w) ∷ m) =
      ground (arith, e.beq_iff i k, e.beq_iff i j, e.beq_iff k j, contains-keys-remove k j m)

  pub insert-Distinct :
      (k : K) (v : V) (m : Hash K V) → Distinct (keys m) → Distinct (keys (insert k v m))
  unfolding contains insert
  insert-Distinct k v [] d = (refl, tt)
  insert-Distinct k v ((i, w) ∷ m) d =
      ground (
        arith,
        e.beq_iff i k,
        e.beq_iff k i,
        contains-keys-insert k i v m,
        insert-Distinct k v m d.1,
      )

  pub remove-Distinct : (k : K) (m : Hash K V) → Distinct (keys m) → Distinct (keys (remove k m))
  unfolding contains remove
  remove-Distinct k [] d = tt
  remove-Distinct k ((i, w) ∷ m) d =
      ground (arith, contains-keys-remove k i m, remove-Distinct k m d.1)
