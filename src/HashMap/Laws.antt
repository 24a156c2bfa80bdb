-- ===== src/HashMap/Laws.antt =====
-- Lookups after each operation, in `if` form.
use subfile_data_service.Prelude.{
  Bytes, bytes_eq, bytes_eq_iff, [], ◌∷◌, none, some, if◌then◌else◌, ◌≡◌, arith, refl,
}
use subfile_data_service.HashMap.{HashMap, get, insert, remove}

module _ {ℓ} {V : Type ℓ} where
  pub get-insert :
      (k j : Bytes) (v : V) (m : HashMap V)
      → get j (insert k v m) ≡ (if bytes_eq k j then some v else get j m)
  unfolding get insert
  get-insert k j v [] = refl
  get-insert k j v ((i, w) ∷ m) =
      ground (arith, bytes_eq_iff k j, bytes_eq_iff i k, bytes_eq_iff i j, get-insert k j v m)

  pub get-remove :
      (k j : Bytes) (m : HashMap V) → get j (remove k m) ≡ (if bytes_eq k j then none else get j m)
  unfolding get remove
  get-remove k j [] = ground arith
  get-remove k j ((i, w) ∷ m) =
      ground (arith, bytes_eq_iff k j, bytes_eq_iff i k, bytes_eq_iff i j, get-remove k j m)

pub ruleset map_laws = (get-insert, get-remove)
