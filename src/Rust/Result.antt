-- ===== src/Rust/Result.antt =====
-- `Result<_, Error>` with the two other ways a call can end. Cargo.toml sets `panic = "abort"` in both
-- profiles, so a panic ends the process and no caller sees it; `out_of_fuel` marks the bound of a loop.
use subfile_data_service.Prelude.{Option, none, some, ◌≡◌, refl, ◌⊎◌, inl, inr}
use subfile_data_service.Errors.{Error, ExternalError}

pub data Result {ℓ} (A : Type ℓ) : Type ℓ where
  ok : A → Result A
  err : Error → Result A
  panic : Result A
  out_of_fuel : Result A

-- What a call of a third-party or system function returns.
pub data Io {ℓ} (A : Type ℓ) : Type ℓ where
  done : A → Io A
  failed : ExternalError → Io A

-- the operator `?` behind a call, and the rest of the function
infixl 5 ◌>>=◌ ◌>>◌
abbrev pub ◌>>=◌ {ℓ κ} :
    {A : Type ℓ} {B : Type κ} (called : Result A) (rest : A → Result B) → Result B
panic >>= rest = panic
out_of_fuel >>= rest = out_of_fuel
err error >>= rest = err error
ok value >>= rest = rest value

abbrev pub ◌>>◌ {ℓ κ} : {A : Type ℓ} {B : Type κ} → Result A → Result B → Result B
first >> second = first >>= λ value. second

abbrev pub map_err {ℓ} : {A : Type ℓ} → Io A → (ExternalError → Error) → Result A
map_err (done a) f = ok a
map_err (failed e) f = err (f e)

-- `expect` on a call's result
abbrev pub expect {ℓ} : {A : Type ℓ} → Io A → Result A
expect (done a) = ok a
expect (failed e) = panic

-- `Option::ok_or`
abbrev pub ok_or {ℓ} : {A : Type ℓ} → Option A → Error → Result A
ok_or none e = err e
ok_or (some a) e = ok a

-- An index, or an `unwrap`, that panics on nothing.
abbrev pub unwrap {ℓ} : {A : Type ℓ} → Option A → Result A
unwrap none = panic
unwrap (some a) = ok a

pub ok-injective {ℓ} : {A : Type ℓ} {a b : A} → ok a ≡ ok b → a ≡ b
ok-injective h = cc

pub >>=-eq-ok {ℓ κ} :
    {A : Type ℓ} {B : Type κ} (called : Result A) (rest : A → Result B) {b : B}
    → (called >>= rest) ≡ ok b
    → (a : A) × (called ≡ ok a) × (rest a ≡ ok b)
>>=-eq-ok panic rest h = cc
>>=-eq-ok out_of_fuel rest h = cc
>>=-eq-ok (err error) rest h = cc
>>=-eq-ok (ok value) rest h = (value, refl, h)

pub Io-cases {ℓ} :
    {A : Type ℓ} (r : Io A) → ((a : A) × (r ≡ done a)) ⊎ ((e : ExternalError) × (r ≡ failed e))
Io-cases (done a) = inl (a, refl)
Io-cases (failed e) = inr (e, refl)

pub Result-cases {ℓ} :
    {A : Type ℓ} (r : Result A)
    → ((a : A) × (r ≡ ok a)) ⊎ ((e : Error) × (r ≡ err e)) ⊎ (r ≡ panic) ⊎ (r ≡ out_of_fuel)
Result-cases (ok a) = inl (a, refl)
Result-cases (err e) = inr (inl (e, refl))
Result-cases panic = inr (inr (inl refl))
Result-cases out_of_fuel = inr (inr (inr refl))
