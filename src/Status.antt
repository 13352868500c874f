-- ===== src/Status.antt =====
-- pakka_status_t of include/pakka.h, and the results of functions that return it.
use pakka.Prelude.{◌≡◌, refl, ap, Bool, true, false}

-- The error codes; PAKKA_OK is the constructor `ok` of `Result`.
pub data Status : Type 0 where
  err_io : Status
  err_format : Status
  err_unsupported : Status
  err_unsafe_name : Status
  err_duplicate : Status
  err_not_found : Status
  err_exists : Status
  err_nomem : Status
  err_limit : Status
  err_invalid_argument : Status

pub data Result {ℓ} (A : Type ℓ) : Type ℓ where
  ok : A → Result A
  err : Status → Result A

-- Early return: what follows runs where the step succeeded.
infixl 5 ◌>>=◌ ◌>>◌
abbrev pub ◌>>=◌ {ℓ κ} : {A : Type ℓ} {B : Type κ} → Result A → (A → Result B) → Result B
ok value >>= next = next value
err status >>= next = err status

abbrev pub ◌>>◌ {κ} : {B : Type κ} → Result (Unit {0}) → Result B → Result B
step >> next = step >>= λ _. next

-- `if (bad) return e;`
abbrev pub refuse_if : Bool → Status → Result (Unit {0})
refuse_if true e = err e
refuse_if false e = ok tt

-- What is known where a chain succeeded.
pub bind-ok {ℓ κ} :
    {A : Type ℓ} {B : Type κ} (m : Result A) (f : A → Result B) (b : B)
    → (m >>= f) ≡ ok b
    → (a : A) × (m ≡ ok a) × (f a ≡ ok b)
bind-ok (ok a) f b h = (a, refl, h)
bind-ok (err e) f b h = cc

pub refuse_if-ok : (bad : Bool) (e : Status) (u : Unit {0}) → refuse_if bad e ≡ ok u → bad ≡ false
refuse_if-ok true e u h = cc
refuse_if-ok false e u h = refl

pub ok-injective {ℓ} : {A : Type ℓ} {a b : A} → ok a ≡ ok b → a ≡ b
ok-injective {A = A} {a = a} h = ap value h
  where
    value : Result A → A
    value (ok x) = x
    value (err e) = a
