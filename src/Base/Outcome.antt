-- ===== src/Base/Outcome.antt =====
-- `Result<T, DistributedError>`. An error is its kind: the public message and the detail text of
-- `DistributedError` carry no decision of the program.
use mathlib.Core.Path.{◌≡◌, refl}
use mathlib.Core.Bool.{Bool, true, false}
use mathlib.Core.Option.{Option, none, some}
use mathlib.Core.Logic.{◌⊎◌, inl, inr}

pub data ErrorKind : Type 0 where
  disabled experimental_unavailable invalid_config capacity_exceeded : ErrorKind
  host_unavailable worker_unavailable worker_rejected incompatible : ErrorKind
  localization_failed transport_closed attempt_stale retry_unsafe : ErrorKind
  task_unknown protocol storage corrupt durability_unavailable : ErrorKind
  invalid_transition conflict quorum_lost fenced grant_expired : ErrorKind
  not_leader control_lease_expired : ErrorKind

pub data Result {ℓ} (A : Type ℓ) : Type ℓ where
  ok : A → Result A
  err : ErrorKind → Result A

infixl 5 ◌>>=◌ ◌>>◌
abbrev pub ◌>>=◌ {μ ν} : {S : Type μ} {T : Type ν} → Result S → (S → Result T) → Result T
ok done >>= next = next done
err kind >>= next = err kind

abbrev pub ◌>>◌ {ν} : {T : Type ν} → Result (Unit {0}) → Result T → Result T
guard >> rest = guard >>= λ passed. rest

-- `if refused { return Err(e) }`.
abbrev pub refuse_if : Bool → ErrorKind → Result (Unit {0})
refuse_if true e = err e
refuse_if false e = ok tt

-- `ok_or_else`.
abbrev pub or_fail {ℓ} : {A : Type ℓ} → Option A → ErrorKind → Result A
or_fail none e = err e
or_fail (some a) e = ok a

-- A round of a loop on fuel that may fail: an error ends the loop. `none` is a loop out of fuel.
abbrev pub next_round {ℓ} : {A B : Type ℓ} → Result A → (A → Option (Result B)) → Option (Result B)
next_round (err e) f = some (err e)
next_round (ok a) f = f a

abbrev pub is_ok {ℓ} : {A : Type ℓ} → Result A → Bool
is_ok (ok a) = true
is_ok (err e) = false

pub Result-cases {ℓ} :
    {A : Type ℓ} (m : Result A) → ((a : A) × (m ≡ ok a)) ⊎ ((e : ErrorKind) × (m ≡ err e))
Result-cases (ok a) = inl (a, refl)
Result-cases (err e) = inr (e, refl)

-- What a guarded result that is Ok says: the guard let it pass.
pub refuse_if-ok {ℓ} :
    {A : Type ℓ} (b : Bool) (e : ErrorKind) {x u : A}
    → (refuse_if b e >> ok x) ≡ ok u
    → (b ≡ false) × (x ≡ u)
refuse_if-ok true e h = absurd (cc)
refuse_if-ok false e h = (refl, cc)

-- What a chain that is Ok says: each link is.
pub bind-ok {ℓ κ} :
    {A : Type ℓ} {B : Type κ} (m : Result A) (f : A → Result B) {u : B}
    → (m >>= f) ≡ ok u
    → (a : A) × (m ≡ ok a) × (f a ≡ ok u)
bind-ok (ok a) f h = (a, refl, h)
bind-ok (err e) f h = absurd cc

pub refuse_if-false : (b : Bool) (e : ErrorKind) {u : Unit {0}} → refuse_if b e ≡ ok u → b ≡ false
refuse_if-false true e h = absurd cc
refuse_if-false false e h = refl

pub or_fail-ok {ℓ} :
    {A : Type ℓ} (o : Option A) (e : ErrorKind) {a : A} → or_fail o e ≡ ok a → o ≡ some a
or_fail-ok none e h = absurd cc
or_fail-ok (some a) e h = cc
