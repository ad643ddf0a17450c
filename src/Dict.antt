-- ===== src/Dict.antt =====
-- A Go map with string keys, as an association list. Where the source ranges over a map the order
-- is that of the list; nothing is proved that rests on it.
use device_handler.Prelude.{
  ◌≡◌, refl, Option, none, some, List, [], ◌∷◌, ◌∙◌, arith, if◌then◌else◌, false, inl, inr,
  Bool-cases,
}
use device_handler.Text.{Text, equal}
use device_handler.Text.Normal.{equal_iff, equal_refl, equal_comm}

abbrev pub Dict {ℓ} : Type ℓ → Type ℓ
Dict V = List (Text × V)

module _ {ℓ} {V : Type ℓ} where
  -- v, ok := m[k]
  unfoldable pub lookup : Text → Dict V → Option V
  lookup k [] = none
  lookup k ((j, v) ∷ m) = if equal j k then some v else lookup k m

  -- m[k] = v
  unfoldable pub insert : Text → V → Dict V → Dict V
  insert k v [] = (k, v) ∷ []
  insert k v ((j, w) ∷ m) = if equal j k then (j, v) ∷ m else (j, w) ∷ insert k v m

  abbrev pub values : Dict V → List V
  values [] = []
  values ((j, v) ∷ m) = v ∷ values m

  pub lookup-insert :
      (k j : Text) (v : V) (m : Dict V)
      → lookup j (insert k v m) ≡ (if equal k j then some v else lookup j m)
  unfolding lookup insert
  lookup-insert k j v [] = refl
  lookup-insert k j v ((i, w) ∷ m) =
      ground (arith, equal_iff k j, equal_iff i k, equal_iff i j, lookup-insert k j v m)

  pub lookup-insert_self : (k : Text) (v : V) (m : Dict V) → lookup k (insert k v m) ≡ some v
  lookup-insert_self k v m = ground (arith, lookup-insert k k v m, equal_refl k)

  -- The key of every entry is `name` of its value, and stands once.
  abbrev pub IsKeyed : (V → Text) → Dict V → Type ℓ
  IsKeyed name [] = Unit
  IsKeyed name ((j, v) ∷ m) = (j ≡ name v) × (lookup j m ≡ none) × IsKeyed name m

  lookup-insert-none :
      (k j : Text) (v : V) (m : Dict V)
      → equal j k ≡ false
      → lookup j m ≡ none
      → lookup j (insert k v m) ≡ none
  lookup-insert-none k j v m ne h = ground (arith, lookup-insert k j v m, equal_comm j k)

  pub insert-IsKeyed :
      (name : V → Text) (k : Text) (v : V) (m : Dict V)
      → k ≡ name v
      → IsKeyed name m
      → IsKeyed name (insert k v m)
  unfolding insert
  insert-IsKeyed name k v [] e h = (e, unfold lookup in refl, tt)
  insert-IsKeyed name k v ((j, w) ∷ m) e (a, b, c) = elim (Bool-cases (equal j k)) [
    | inl same ↦ rw same ((equal_iff j k).0 same ∙ e, b, c)
    | inr other ↦ rw other (a, lookup-insert-none k j v m other b, insert-IsKeyed name k v m e c)
  ]

  pub lookup-IsKeyed :
      (name : V → Text) (k : Text) (m : Dict V) {v : V}
      → IsKeyed name m
      → lookup k m ≡ some v
      → name v ≡ k
  unfolding lookup
  lookup-IsKeyed name k [] {v} h e = cc
  lookup-IsKeyed name k ((j, w) ∷ m) {v} h e =
      ground (arith, equal_iff j k, lookup-IsKeyed name k m {v = v} h.2)
