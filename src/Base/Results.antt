-- ===== src/Base/Results.antt =====
-- Go's `(T, error)` results.
use mathlib.Core.Bool.{Bool, true, false}
use mathlib.Core.Path.{◌≡◌, refl, subst}

-- What the code tells apart: a failed statement or system call, and the code's own messages.
pub data Error : Type 0 where
  sql_error os_error remote_error cancelled_error : Error
  not_found not_in_db is_a_directory nil_file : Error

pub data Result {ℓ} (A : Type ℓ) : Type ℓ where
  ok : A → Result A
  err : Error → Result A

infixl 5 ◌>>=◌
abbrev pub ◌>>=◌ {ℓ κ} : {A : Type ℓ} {B : Type κ} → Result A → (A → Result B) → Result B
ok a >>= f = f a
err e >>= f = err e

-- A call of the driver or of the system that succeeds or fails with `e`.
abbrev pub attempt : Bool → Error → Result (Unit {0})
attempt true e = ok tt
attempt false e = err e

infixl 5 ◌>>◌
abbrev pub ◌>>◌ {ℓ} : {B : Type ℓ} → Result (Unit {0}) → Result B → Result B
m >> k = m >>= λ _. k

-- `if err != nil { return }` and logged errors: the new value, or the old one.
abbrev pub ok_or {ℓ} : {A : Type ℓ} → A → Result A → A
ok_or a (ok b) = b
ok_or a (err e) = a

-- A chain that succeeds has a successful first step.
pub >>=-eq-ok {κ ℓ} :
    {T : Type κ} {S : Type ℓ} (first : Result S) (step : S → Result T) {last : T}
    → first >>= step ≡ ok last
    → (mid : S) × (first ≡ ok mid) × (step mid ≡ ok last)
>>=-eq-ok (err x) step e = cc
>>=-eq-ok (ok mid) step e = (mid, refl, e)

pub attempt-eq-ok : (b : Bool) (e : Error) {u : Unit {0}} → attempt b e ≡ ok u → b ≡ true
attempt-eq-ok true e h = refl
attempt-eq-ok false e h = cc

-- What holds of the result if the operation succeeds.
abbrev pub Ensures {ℓ κ} : {A : Type ℓ} → (A → Type κ) → Result A → Type κ
Ensures P (ok a) = P a
Ensures P (err e) = Unit

pub Ensures-bind {ℓ κ} :
    {A B : Type ℓ} (P : A → Type κ) (Q : B → Type κ) (m : Result A) (f : A → Result B)
    → Ensures P m
    → ((a : A) → P a → Ensures Q (f a))
    → Ensures Q (m >>= f)
Ensures-bind P Q (ok a) f h k = k a h
Ensures-bind P Q (err e) f h k = tt

pub Ensures-attempt {ℓ κ} :
    {B : Type ℓ} (Q : B → Type κ) (b : Bool) (e : Error) (m : Result B)
    → Ensures Q m
    → Ensures Q (attempt b e >> m)
Ensures-attempt Q true e m h = h
Ensures-attempt Q false e m h = tt

pub Ensures-of_eq {ℓ κ} :
    {A : Type ℓ} (P : A → Type κ) (m : Result A) → ((a : A) → m ≡ ok a → P a) → Ensures P m
Ensures-of_eq P (ok a) h = h a refl
Ensures-of_eq P (err e) h = tt

pub of_Ensures {ℓ κ} :
    {A : Type ℓ} (P : A → Type κ) (m : Result A) (a : A) → Ensures P m → m ≡ ok a → P a
of_Ensures P (ok b) a h e = subst P (cc) h
of_Ensures P (err x) a h e = cc
