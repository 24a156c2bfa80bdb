-- ===== src/HashMap.antt =====
-- `std::collections::HashMap` with text keys: one entry for a key. The order in which the entries
-- come is of no account in the program.
pub mod Laws
use subfile_data_service.Prelude.{
  Bytes, bytes_eq, List, [], ◌∷◌, Option, none, some, Bool, true, false, if◌then◌else◌, map,
}

abbrev pub HashMap {ℓ} : Type ℓ → Type ℓ
HashMap V = List (Bytes × V)

module _ {ℓ} {V : Type ℓ} where
  unfoldable pub get : Bytes → HashMap V → Option V
  get k [] = none
  get k ((j, v) ∷ m) = if bytes_eq j k then some v else get k m

  unfoldable pub insert : Bytes → V → HashMap V → HashMap V
  insert k v [] = (k, v) ∷ []
  insert k v ((j, w) ∷ m) = if bytes_eq j k then (j, v) ∷ m else (j, w) ∷ insert k v m

  unfoldable pub remove : Bytes → HashMap V → HashMap V
  remove k [] = []
  remove k ((j, v) ∷ m) = let rest = remove k m in if bytes_eq j k then rest else (j, v) ∷ rest

  unfoldable pub keys : HashMap V → List Bytes
  keys [] = []
  keys ((j, v) ∷ m) = j ∷ keys m
