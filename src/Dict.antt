-- ===== src/Dict.antt =====
-- Python's `dict` with text keys, as the list of its items in insertion order.
use ajit_segment_bots.Prelude.{
  String, ◌≡◌, refl, Bool, Option, none, some, List, [], ◌∷◌, arith, eq_iff, str_eq, str_eq_refl,
  is_some, contains, if◌then◌else◌,
}

abbrev pub Dict {ℓ} : Type ℓ → Type ℓ
Dict V = List (String × V)

module _ {ℓ} {V : Type ℓ} where
  -- `d.get(k)`
  unfoldable pub get : Dict V → String → Option V
  get [] k = none
  get ((j, v) ∷ d) k = if str_eq j k then some v else get d k

  -- `d[k] = v`: an old key keeps its place, a new one goes last.
  unfoldable pub put : Dict V → String → V → Dict V
  put [] k v = (k, v) ∷ []
  put ((j, w) ∷ d) k v = if str_eq j k then (j, v) ∷ d else (j, w) ∷ put d k v

  -- `d.pop(k, None)`
  unfoldable pub remove : Dict V → String → Dict V
  remove [] k = []
  remove ((j, v) ∷ d) k = let rest = remove d k in if str_eq j k then rest else (j, v) ∷ rest

  unfoldable pub keys : Dict V → List String
  keys [] = []
  keys ((j, v) ∷ d) = j ∷ keys d

  -- `k in d`
  abbrev pub has_key : Dict V → String → Bool
  has_key d k = is_some (get d k)

  pub get-put :
      (d : Dict V) (k : String) (v : V) (j : String)
      → get (put d k v) j ≡ (if str_eq k j then some v else get d j)
  unfolding get put
  get-put [] k v j = refl
  get-put ((i, w) ∷ d) k v j = ground (arith, eq_iff k j, eq_iff i k, eq_iff i j, get-put d k v j)

  pub get-remove :
      (d : Dict V) (k j : String) → get (remove d k) j ≡ (if str_eq k j then none else get d j)
  unfolding get remove
  get-remove [] k j = ground arith
  get-remove ((i, w) ∷ d) k j = ground (arith, eq_iff k j, eq_iff i k, eq_iff i j, get-remove d k j)

  pub get-put_self : (d : Dict V) (k : String) (v : V) → get (put d k v) k ≡ some v
  get-put_self d k v = simp (get-put, str_eq_refl)

  pub contains-keys : (d : Dict V) (k : String) → contains (keys d) k ≡ has_key d k
  unfolding contains keys get
  contains-keys [] k = refl
  contains-keys ((j, v) ∷ d) k = ground (arith, contains-keys d k)
