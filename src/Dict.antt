-- ===== src/Dict.antt =====
-- Python's `dict` with text keys, as the list of its items in insertion order.
use ao_operator.Base.{
  ◌≡◌, refl, false, Option, none, some, List, [], ◌∷◌, if◌then◌else◌, arith, Bool-cases, inl, inr,
}
use ao_operator.Text.{Text, teq, teq_iff, teq_refl}

abbrev pub Dict {ℓ} : Type ℓ → Type ℓ
Dict V = List (Text × V)

module _ {ℓ} {V : Type ℓ} where
  unfoldable pub get : Text → Dict V → Option V
  get k [] = none
  get k ((j, v) ∷ d) = let rest = get k d in if teq j k then some v else rest

  -- `d[k] = v`: a key that is there keeps its place.
  unfoldable pub set : Text → V → Dict V → Dict V
  set k v [] = (k, v) ∷ []
  set k v ((j, w) ∷ d) = let rest = set k v d in if teq j k then (j, v) ∷ d else (j, w) ∷ rest

  pub get-set :
      (k j : Text) (v : V) (d : Dict V) → get j (set k v d) ≡ (if teq k j then some v else get j d)
  unfolding get set
  get-set k j v [] = refl
  get-set k j v ((i, w) ∷ d) =
      ground (arith, get-set k j v d, teq_iff k j, teq_iff i k, teq_iff i j)

  pub get-set_self : (k : Text) (v : V) (d : Dict V) → get k (set k v d) ≡ some v
  get-set_self k v d = simp (get-set, teq_refl)

  pub get-set_ne : (k j : Text) (v : V) (d : Dict V) → teq k j ≡ false → get j (set k v d) ≡ get j d
  get-set_ne k j v d h = rw (get-set k j v d, h)

  -- No key twice, as in every dict.
  abbrev pub IsDict : Dict V → Type ℓ
  IsDict [] = Unit
  IsDict ((j, v) ∷ d) = (get j d ≡ none) × IsDict d

  pub set-IsDict : (k : Text) (v : V) (d : Dict V) → IsDict d → IsDict (set k v d)
  unfolding set get
  set-IsDict k v [] h = (refl, tt)
  set-IsDict k v ((j, w) ∷ d) (new, h) = elim (Bool-cases (teq j k)) [
    | inl same ↦ rw same (new, h)
    | inr other ↦
        rw other (ground (arith, get-set k j v d, teq_iff k j, teq_iff j k), set-IsDict k v d h)
  ]
