-- ===== src/Prelude/Maps.antt =====
-- Go strings as byte lists, and a Go `map[string]V` as a list of entries with one entry for a key:
-- a new key goes to the end, a write to a key that is there stays in place. The list's order is an
-- order in which `range` may visit the entries.
use Prim.Native.Nat.{ℕ}
use Prim.Native.Char.{code}
use Prim.Native.String.{String}
use mathlib.Core.Path.{◌≡◌, refl, ap}
use mathlib.Core.Logic.{◌≢◌, ◌↔◌}
use mathlib.Core.Bool.{Bool, true, false, ◌&&◌}
use mathlib.Core.List.{List, [], ◌∷◌, ◌++◌}
use mathlib.Core.Option.{Option, none, some}
use native.Mathlib.Omega.{arith}
use k8s_swarm.Prelude.Tests.{◌==◌, if◌then◌else◌}

abbrev pub Bytes : Type 0
Bytes = List ℕ

abbrev pub codes : String → Bytes
codes String.[] = []
codes (String.◌∷◌ c s) = code c ∷ codes s

-- Equality of two Go strings.
abbrev pub bytes_eq : Bytes → Bytes → Bool
bytes_eq [] [] = true
bytes_eq [] (b ∷ t) = false
bytes_eq (a ∷ s) [] = false
bytes_eq (a ∷ s) (b ∷ t) = a == b && bytes_eq s t

pub eq_of_bytes_eq : (s t : Bytes) → bytes_eq s t ≡ true → s ≡ t
eq_of_bytes_eq [] [] h = refl
eq_of_bytes_eq [] (b ∷ t) h = cc
eq_of_bytes_eq (a ∷ s) [] h = cc
eq_of_bytes_eq (a ∷ s) (b ∷ t) h = ground (arith, eq_of_bytes_eq s t)

pub bytes_eq_self : (s : Bytes) → bytes_eq s s ≡ true
bytes_eq_self [] = refl
bytes_eq_self (a ∷ s) = ground (arith, bytes_eq_self s)

pub bytes_eq_of_eq : (s t : Bytes) → s ≡ t → bytes_eq s t ≡ true
bytes_eq_of_eq s t e = rw e (bytes_eq_self t)

pub bytes_eq_iff : (s t : Bytes) → (bytes_eq s t ≡ true) ↔ (s ≡ t)
bytes_eq_iff s t = (eq_of_bytes_eq s t, bytes_eq_of_eq s t)

pub bytes_eq_of_ne : (s t : Bytes) → s ≢ t → bytes_eq s t ≡ false
bytes_eq_of_ne s t h = ground (arith, bytes_eq_iff s t)

abbrev pub Dict {ℓ} : Type ℓ → Type ℓ
Dict V = List (Bytes × V)

module _ {ℓ} {V : Type ℓ} where
  -- `v, ok := m[k]`.
  abbrev pub lookup : Bytes → Dict V → Option V
  lookup k [] = none
  lookup k ((j, v) ∷ m) = if bytes_eq j k then some v else lookup k m

  -- `m[k] = v`.
  abbrev pub insert : Bytes → V → Dict V → Dict V
  insert k v [] = (k, v) ∷ []
  insert k v ((j, w) ∷ m) = if bytes_eq j k then (j, v) ∷ m else (j, w) ∷ insert k v m

  -- `delete(m, k)`.
  abbrev pub delete : Bytes → Dict V → Dict V
  delete k [] = []
  delete k ((j, v) ∷ m) = if bytes_eq j k then m else (j, v) ∷ delete k m

  -- Two keys that are equal stand at one place only.
  abbrev pub Fresh : Bytes → Dict V → Type ℓ
  Fresh k m = lookup k m ≡ none

  abbrev pub KeysUnique : Dict V → Type ℓ
  KeysUnique [] = Unit
  KeysUnique ((k, v) ∷ m) = Fresh k m × KeysUnique m

  abbrev pub values : Dict V → List V
  values [] = []
  values ((k, v) ∷ m) = v ∷ values m

module _ {ℓ} {V : Type ℓ} where
  pub lookup-insert :
      (k j : Bytes) (v : V) (m : Dict V)
      → lookup j (insert k v m) ≡ (if bytes_eq k j then some v else lookup j m)
  lookup-insert k j v [] = refl
  lookup-insert k j v ((i, w) ∷ m) =
      ground (arith, bytes_eq_iff k j, bytes_eq_iff i k, bytes_eq_iff i j, lookup-insert k j v m)

  pub lookup-delete :
      (k j : Bytes) (m : Dict V)
      → KeysUnique m
      → lookup j (delete k m) ≡ (if bytes_eq k j then none else lookup j m)
  lookup-delete k j [] u = ground arith
  lookup-delete k j ((i, w) ∷ m) u = ground (
    arith,
    bytes_eq_iff k j,
    bytes_eq_iff i k,
    bytes_eq_iff i j,
    lookup-delete k j m u.1,
    ap (λ (x : Bytes). lookup x m) {x = i} {y = j},
  )

  pub insert-KeysUnique :
      (k : Bytes) (v : V) (m : Dict V) → KeysUnique m → KeysUnique (insert k v m)
  insert-KeysUnique k v [] u = (refl, tt)
  insert-KeysUnique k v ((i, w) ∷ m) u = ground (
    arith,
    bytes_eq_iff k i,
    bytes_eq_iff i k,
    lookup-insert k i v m,
    insert-KeysUnique k v m u.1,
  )

  pub delete-KeysUnique : (k : Bytes) (m : Dict V) → KeysUnique m → KeysUnique (delete k m)
  delete-KeysUnique k [] u = tt
  delete-KeysUnique k ((i, w) ∷ m) u = ground (
    arith,
    lookup-delete k i m u.1,
    bytes_eq_iff k i,
    bytes_eq_iff i k,
    delete-KeysUnique k m u.1,
  )

  pub lookup-append_fresh :
      (k j : Bytes) (v : V) (m : Dict V)
      → lookup k m ≡ none
      → lookup j (m ++ (k, v) ∷ []) ≡ (if bytes_eq k j then some v else lookup j m)
  lookup-append_fresh k j v [] h = refl
  lookup-append_fresh k j v ((i, w) ∷ m) h =
      ground
        (arith, bytes_eq_iff k j, bytes_eq_iff i k, bytes_eq_iff i j, lookup-append_fresh k j v m)
