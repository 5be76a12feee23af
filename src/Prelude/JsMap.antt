-- ===== src/Prelude/JsMap.antt =====
-- A JavaScript `Map` with strings for keys: its entries in the order of insertion.
use mathlib.Core.Path.{◌≡◌, refl}
use mathlib.Core.Logic.{inl, inr}
use mathlib.Core.Bool.{Bool, false, ◌||◌}
use mathlib.Core.List.{List, [], ◌∷◌}
use mathlib.Core.Option.{Option, none, some}
use native.Mathlib.Omega.{arith}
use evm_smart_contracts.Prelude.Tests.{if◌then◌else◌, Bool-cases}
use evm_smart_contracts.Prelude.JsText.{Text, text_eq, text_eq_refl, text_eq→eq}

-- `list.includes(t)`.
unfoldable pub list_includes : List Text → Text → Bool
list_includes [] t = false
list_includes (x ∷ xs) t = text_eq x t || list_includes xs t

abbrev pub Dict {ℓ} : Type ℓ → Type ℓ
Dict V = List (Text × V)

module _ {ℓ} {V : Type ℓ} where
  -- `m.get(k)`.
  unfoldable pub get : Text → Dict V → Option V
  get k [] = none
  get k ((j, v) ∷ d) = if text_eq j k then some v else get k d

  -- `m.set(k, v)`.
  unfoldable pub put : Text → V → Dict V → Dict V
  put k v [] = (k, v) ∷ []
  put k v ((j, w) ∷ d) = if text_eq j k then (j, v) ∷ d else (j, w) ∷ put k v d

  -- `m.delete(k)`; the keys of a `Map` differ, so at most one entry goes.
  unfoldable pub remove : Text → Dict V → Dict V
  remove k [] = []
  remove k ((j, w) ∷ d) = if text_eq j k then remove k d else (j, w) ∷ remove k d

  pub get-remove_self : (k : Text) (d : Dict V) → get k (remove k d) ≡ none
  unfolding get remove
  get-remove_self k [] = refl
  get-remove_self k ((j, w) ∷ d) = ground (arith, get-remove_self k d)

  pub get-put_self : (k : Text) (v : V) (d : Dict V) → get k (put k v d) ≡ some v
  unfolding get put
  get-put_self k v [] = ground (arith, text_eq_refl k)
  get-put_self k v ((j, w) ∷ d) = ground (arith, get-put_self k v d)

  pub get-put_ne :
      (k j : Text) (v : V) (d : Dict V) → text_eq k j ≡ false → get j (put k v d) ≡ get j d
  unfolding get put
  get-put_ne k j v [] h = ground arith
  get-put_ne k j v ((i, w) ∷ d) h = elim (Bool-cases (text_eq i k)) [
    | inl same ↦ ground (arith, text_eq→eq i k same, get-put_ne k j v d h)
    | inr other ↦ ground (arith, get-put_ne k j v d h)
  ]
