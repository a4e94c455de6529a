-- ===== src/Base/Results.antt =====
-- The outcomes of a Go call: a value, an error value, or a run-time panic.
use mathlib.Core.Path.{◌≡◌, refl}
use mathlib.Core.Logic.{◌⊎◌, inl, inr}
use mathlib.Core.Bool.{Bool}
use mathlib.Core.Option.{Option, none, some}
use dag.Base.Text.{Str}

-- The errors that the source names, and those that a caller's or a library's code returns. Of the
-- latter the source looks at two things: whether `errors.Is` finds ipld.ErrNotFound in it, and its
-- message.
pub data Error : Type 0 where
  index_out_of_range : Error
  id_not_found : Error
  info_not_found : Error
  no_manifest : Error
  label_not_found : Str → Error
  pin_not_supported : Error
  remove_not_supported : Error
  sid_not_found : Str → Error
  hash_mismatch : Str → Str → Error
  hash_integrity_mismatch : Str → Str → Error
  max_retries_reached : Error
  end_of_file : Error
  unknown_protocol_version : Error
  external : Bool → Str → Error

pub data Result {ℓ} (A : Type ℓ) : Type ℓ where
  panic : Result A
  err : Error → Result A
  ok : A → Result A

-- A panic and an error end the function that met them.
infixl 5 ◌>>=◌
abbrev pub ◌>>=◌ {ℓ κ} : {A : Type ℓ} {B : Type κ} → Result A → (A → Result B) → Result B
◌>>=◌ panic next = panic
◌>>=◌ (err e) next = err e
◌>>=◌ (ok value) next = next value

-- Reading through a nil pointer, or out of a slice's range, panics.
abbrev pub or_panic {ℓ} : {A : Type ℓ} → Option A → Result A
or_panic none = panic
or_panic (some a) = ok a

-- A split on a computed result that keeps the equation.
pub Result-cases {ℓ} :
    {A : Type ℓ} (r : Result A)
    → ((a : A) × (r ≡ ok a)) ⊎ (((e : Error) × (r ≡ err e)) ⊎ (r ≡ panic))
Result-cases (ok a) = inl (a, refl)
Result-cases (err e) = inr (inl (e, refl))
Result-cases panic = inr (inr refl)
