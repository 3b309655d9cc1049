-- ===== src/Base/TextDict.antt =====
-- A Go map with `string` keys, as an association list.
use Prim.Native.String.{String}
use mathlib.Core.Path.{◌≡◌, refl, ◌∙◌}
use mathlib.Core.List.{List, [], ◌∷◌}
use mathlib.Core.Option.{Option, none, some}
use text.Mathlib.Text.{◌==◌ as str_eq}
use text.Mathlib.TextEquality.{eq_iff}
use native.Mathlib.Omega.{arith}
use vk_turn_proxy_go.Base.Tests.{if◌then◌else◌, if_intro}

module _ {ℓ} {V : Type ℓ} where
  unfoldable pub lookup : String → List (String × V) → Option V
  lookup k [] = none
  lookup k ((j, v) ∷ m) = if str_eq j k then some v else lookup k m

  -- `m[k] = v`.
  unfoldable pub insert : String → V → List (String × V) → List (String × V)
  insert k v [] = (k, v) ∷ []
  insert k v ((j, w) ∷ m) =
      let rest = insert k v m in if str_eq j k then (j, v) ∷ m else (j, w) ∷ rest

  pub lookup-insert :
      (k j : String) (v : V) (m : List (String × V))
      → lookup j (insert k v m) ≡ (if str_eq k j then some v else lookup j m)
  unfolding lookup insert
  lookup-insert k j v [] = ground arith
  lookup-insert k j v ((i, w) ∷ m) =
      ground (arith, eq_iff k j, eq_iff i k, eq_iff i j, lookup-insert k j v m)

  -- A change through the pointer `m[k]`, if there is one.
  unfoldable pub modify : String → (V → V) → List (String × V) → List (String × V)
  modify k f [] = []
  modify k f ((j, v) ∷ m) =
      let rest = modify k f m in if str_eq j k then (j, f v) ∷ m else (j, v) ∷ rest

module _ {ℓ κ} {V : Type ℓ} where
  -- What holds of every value.
  abbrev pub Everywhere : (V → Type κ) → List (String × V) → Type κ
  Everywhere P [] = Unit
  Everywhere P ((j, v) ∷ m) = P v × Everywhere P m

  pub insert-Everywhere :
      (P : V → Type κ) (k : String) (v : V) (m : List (String × V))
      → P v
      → Everywhere P m
      → Everywhere P (insert k v m)
  unfolding insert
  insert-Everywhere P k v [] p h = (p, tt)
  insert-Everywhere P k v ((j, w) ∷ m) p h =
      if_intro (Everywhere P) (str_eq j k) _ _ (λ e. (p, h.1))
        (λ e. (h.0, insert-Everywhere P k v m p h.1))

  pub modify-Everywhere :
      (P : V → Type κ) (k : String) (f : V → V) (m : List (String × V))
      → ((v : V) → P v → P (f v))
      → Everywhere P m
      → Everywhere P (modify k f m)
  unfolding modify
  modify-Everywhere P k f [] p h = tt
  modify-Everywhere P k f ((j, w) ∷ m) p h =
      if_intro (Everywhere P) (str_eq j k) _ _ (λ e. (p w h.0, h.1))
        (λ e. (h.0, modify-Everywhere P k f m p h.1))

module _ {ℓ} {V : Type ℓ} where
  abbrev pub map_value : (V → V) → Option V → Option V
  map_value f none = none
  map_value f (some v) = some (f v)

  pub lookup-modify :
      (k j : String) (f : V → V) (m : List (String × V))
      → lookup j (modify k f m) ≡ (if str_eq k j then map_value f (lookup j m) else lookup j m)
  unfolding lookup modify
  lookup-modify k j f [] = ground arith
  lookup-modify k j f ((i, w) ∷ m) =
      ground (arith, eq_iff k j, eq_iff i k, eq_iff i j, lookup-modify k j f m)

  pub lookup-modify_self :
      (k : String) (f : V → V) (m : List (String × V)) (v : V)
      → lookup k m ≡ some v
      → lookup k (modify k f m) ≡ some (f v)
  lookup-modify_self k f m v h = lookup-modify k k f m ∙ rw ((eq_iff k k).1 refl, h) refl
