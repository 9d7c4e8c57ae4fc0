-- ===== src/Common/Maps.antt =====
-- A `HashMap<String, A>` as an association list.
use mathlib.Core.Path.{◌≡◌, refl, subst, sym, ◌∙◌}
use mathlib.Core.List.{List, [], ◌∷◌}
use mathlib.Core.Option.{Option, none, some}
use mathlib.Core.Logic.{inl, inr}
use portcode.Common.Tests.{if◌then◌else◌, Bool-cases}
use mathlib.Core.Bool.{true, false}
use portcode.Common.Lists.{All}
use portcode.Common.Utf8.{Text, same, same_iff}

module _ {A : Type 0} where
  unfoldable pub map_get : Text → List (Text × A) → Option A
  map_get k [] = none
  map_get k ((j, a) ∷ m) = if same j k then some a else map_get k m

  unfoldable pub map_remove : Text → List (Text × A) → List (Text × A)
  map_remove k [] = []
  map_remove k ((j, a) ∷ m) = let rest = map_remove k m in if same j k then rest else (j, a) ∷ rest

  abbrev pub map_insert : Text → A → List (Text × A) → List (Text × A)
  map_insert k a m = (k, a) ∷ map_remove k m

  pub map_get-map_remove : (k : Text) (m : List (Text × A)) → map_get k (map_remove k m) ≡ none
  unfolding map_get map_remove
  map_get-map_remove k [] = refl
  map_get-map_remove k ((j, a) ∷ m) = elim (Bool-cases (same j k)) [
    | inl e ↦ rw e (map_get-map_remove k m)
    | inr e ↦ rw (e, e) (map_get-map_remove k m)
  ]

  pub map_get-map_remove-other :
      (j k : Text) (m : List (Text × A))
      → same j k ≡ false
      → map_get j (map_remove k m) ≡ map_get j m
  unfolding map_get map_remove
  map_get-map_remove-other j k [] h = refl
  map_get-map_remove-other j k ((i, a) ∷ m) h = elim (Bool-cases (same i k)) [
    | inl e ↦
        let i_k = (same_iff i k).0 e in
        let apart : same i j ≡ false = elim (Bool-cases (same i j)) [
          | inr f ↦ f
          | inl f ↦
              let i_j = (same_iff i j).0 f in
              let j_k : same j k ≡ true = (same_iff j k).1 (sym i_j ∙ i_k) in absurd cc
        ] in
        rw (e, apart) (map_get-map_remove-other j k m h)
    | inr e ↦ elim (Bool-cases (same i j)) [
      | inl f ↦ rw (e, f) refl
      | inr f ↦ rw (e, f) (map_get-map_remove-other j k m h)
    ]
  ]

  pub All-map_remove :
      (P : Text × A → Type 0) (k : Text) (m : List (Text × A)) → All P m → All P (map_remove k m)
  unfolding map_remove
  All-map_remove P k [] h = tt
  All-map_remove P k ((j, a) ∷ m) (p, h) = elim (Bool-cases (same j k)) [
    | inl e ↦ rw e (All-map_remove P k m h)
    | inr e ↦ rw e (p, All-map_remove P k m h)
  ]

  pub All-map_get :
      (P : A → Type 0) (k : Text) (m : List (Text × A)) (a : A)
      → All (λ (e : Text × A). P e.1) m
      → map_get k m ≡ some a
      → P a
  unfolding map_get
  All-map_get P k [] a h e = absurd cc
  All-map_get P k ((j, b) ∷ m) a (p, h) e = elim (Bool-cases (same j k)) [
    | inl s ↦ let t : some b ≡ some a = rw s at e in let u : b ≡ a = cc in subst P u p
    | inr s ↦ All-map_get P k m a h (rw s at e)
  ]
