-- ===== src/Prelude/Fallible.antt =====
-- Rust's `Result`, with `?` as the bind of a `do` block.
use mathlib.Core.Path.{◌≡◌, refl}

pub data Result {ℓ κ} (Error : Type ℓ) (Value : Type κ) : Type (ℓ ⊔ κ) where
  ok : Value → Result Error Value
  err : Error → Result Error Value

infixl 5 ◌>>=◌ ◌>>◌
abbrev pub ◌>>=◌ {ℓ κ μ} :
    {Error : Type ℓ} {Value : Type κ} {Next : Type μ}
    → Result Error Value
    → (Value → Result Error Next)
    → Result Error Next
err failure >>= continue = err failure
ok value >>= continue = continue value

abbrev pub ◌>>◌ {ℓ κ μ} :
    {Error : Type ℓ} {Value : Type κ} {Next : Type μ}
    → Result Error Value
    → Result Error Next
    → Result Error Next
first >> second = first >>= λ _. second

-- Inversion of a successful bind.
pub >>=-eq-ok {ℓ κ μ} :
    {Error : Type ℓ} {Value : Type κ} {Next : Type μ} (first : Result Error Value)
    (continue : Value → Result Error Next) {result : Next}
    → (first >>= continue) ≡ ok result
    → (value : Value) × (first ≡ ok value) × (continue value ≡ ok result)
>>=-eq-ok (err failure) continue done = cc
>>=-eq-ok (ok value) continue done = (value, refl, done)

pub ok-injective {ℓ κ} :
    {Error : Type ℓ} {Value : Type κ} {a b : Value}
    → ◌≡◌ {A = Result Error Value} (ok a) (ok b)
    → a ≡ b
ok-injective equal = cc
