-- ===== src/Tunnel/Maps.antt =====
-- Lookup after an update of a map, and that a map keeps one entry for a key.
use cloudable.Base.{
  ℕ, ◌≡◌, refl, true, false, none, some, List, [], ◌∷◌, ◌==◌, number_eq, if◌then◌else◌, arith,
  has_id, distinct_ids,
}
use cloudable.Tunnel.{Entry, get, set, delete}

module _ {A : Type 0} where
  unfoldable pub keys : List (Entry A) → List ℕ
  keys [] = []
  keys ((k, a) ∷ es) = k ∷ keys es

  pub get-delete :
      (j k : ℕ) (es : List (Entry A)) → get j (delete k es) ≡ (if k == j then none else get j es)
  unfolding get delete
  get-delete j k [] = ground arith
  get-delete j k ((i, a) ∷ es) = ground (arith, get-delete j k es)

  pub get-set :
      (j k : ℕ) (a : A) (es : List (Entry A))
      → get j (set k a es) ≡ (if k == j then some a else get j es)
  unfolding get set
  get-set j k a [] = ground arith
  get-set j k a ((i, b) ∷ es) = ground (arith, get-set j k a es)

  has_id-delete :
      (j k : ℕ) (es : List (Entry A))
      → has_id j (keys es) ≡ false
      → has_id j (keys (delete k es)) ≡ false
  unfolding keys delete
  has_id-delete j k [] h = refl
  has_id-delete j k ((i, a) ∷ es) h = ground (arith, has_id-delete j k es)

  has_id-set :
      (j k : ℕ) (a : A) (es : List (Entry A))
      → (k == j) ≡ false
      → has_id j (keys es) ≡ false
      → has_id j (keys (set k a es)) ≡ false
  unfolding keys set
  has_id-set j k a [] n h = ground arith
  has_id-set j k a ((i, b) ∷ es) n h = ground (arith, has_id-set j k a es)

  pub distinct-delete :
      (k : ℕ) (es : List (Entry A))
      → distinct_ids (keys es) ≡ true
      → distinct_ids (keys (delete k es)) ≡ true
  unfolding keys delete
  distinct-delete k [] h = refl
  distinct-delete k ((i, a) ∷ es) h = ground (arith, distinct-delete k es, has_id-delete i k es)

  pub distinct-set :
      (k : ℕ) (a : A) (es : List (Entry A))
      → distinct_ids (keys es) ≡ true
      → distinct_ids (keys (set k a es)) ≡ true
  unfolding keys set
  distinct-set k a [] h = refl
  distinct-set k a ((i, b) ∷ es) h = ground (arith, distinct-set k a es, has_id-set i k a es)
