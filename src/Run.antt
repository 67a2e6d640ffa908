-- ===== src/Run.antt =====
-- Runs of C code that may fault or exit. `hash(key) % table->size` divides by zero on a table of size 0,
-- which is what a failed `construct_hash_table` leaves behind; a copy may leave its array, a
-- pointer may be NULL, and the code may call `exit`.
use node_identity_architetur.Base.{
  ◌≡◌, refl, ◌⊎◌, inl, inr, Bool, true, false, Option, none, some, if◌then◌else◌,
}

infixl 5 ◌>>=◌
pub data Run {ℓ} (X : Type ℓ) : Type ℓ where
  division_by_zero : Run X
  out_of_bounds : Run X
  null_pointer : Run X
  exited : Run X
  ok : X → Run X

-- A fault ends the run.
abbrev pub ◌>>=◌ {ℓ κ} : {X : Type ℓ} {Y : Type κ} → Run X → (X → Run Y) → Run Y
division_by_zero >>= next = division_by_zero
out_of_bounds >>= next = out_of_bounds
null_pointer >>= next = null_pointer
exited >>= next = exited
ok x >>= next = next x

-- The run ends normally, in a value that satisfies the predicate.
abbrev pub Returns {ℓ κ} : {X : Type ℓ} → Run X → (X → Type κ) → Type (ℓ ⊔ κ)
Returns {X} run Good = (x : X) × (run ≡ ok x) × Good x

-- What is known of a run's value is known of the value that it is seen to return.
pub returned {ℓ κ} :
    {X : Type ℓ} {Good : X → Type κ} {run : Run X} (y : X) → Returns run Good → run ≡ ok y → Good y
returned y (x, returns, good) seen = let same : y ≡ x = cc in rw same good

-- The run ends normally in a value that satisfies the predicate, or it ends the process, which it
-- does only for the reason given.
abbrev pub Ends {ℓ κ μ} : {X : Type ℓ} → Run X → (X → Type κ) → Type μ → Type (ℓ ⊔ κ ⊔ μ)
Ends run Good Why = Returns run Good ⊎ ((run ≡ exited) × Why)

pub Ends-Returns {ℓ κ μ} :
    {X : Type ℓ} {Good : X → Type κ} {Why : Type μ} {run : Run X}
    → Ends run Good Why
    → ¬ Why
    → Returns run Good
Ends-Returns (inl returns) never = returns
Ends-Returns (inr (left, why)) never = absurd (never why)

-- Whatever the run returns, if it returns at all, satisfies the predicate.
abbrev pub WhenOk {ℓ κ} : {X : Type ℓ} → Run X → (X → Type κ) → Type (ℓ ⊔ κ)
WhenOk {X} run Good = (x : X) → run ≡ ok x → Good x

pub WhenOk-bind {ℓ κ λ₁ μ} :
    {X : Type ℓ} {Y : Type κ} (run : Run X) (next : X → Run Y) (Mid : X → Type λ₁)
    (Good : Y → Type μ)
    → WhenOk run Mid
    → ((x : X) → Mid x → WhenOk (next x) Good)
    → WhenOk (run >>= next) Good
WhenOk-bind division_by_zero next Mid Good first rest y e = cc
WhenOk-bind out_of_bounds next Mid Good first rest y e = cc
WhenOk-bind null_pointer next Mid Good first rest y e = cc
WhenOk-bind exited next Mid Good first rest y e = cc
WhenOk-bind (ok x) next Mid Good first rest y e = rest x (first x refl) y e

pub Returns-WhenOk {ℓ κ} :
    {X : Type ℓ} {Good : X → Type κ} {run : Run X} → Returns run Good → WhenOk run Good
Returns-WhenOk returns y = returned y returns

pub Ends-WhenOk {ℓ κ μ} :
    {X : Type ℓ} {Good : X → Type κ} {Why : Type μ} {run : Run X}
    → Ends run Good Why
    → WhenOk run Good
Ends-WhenOk (inl returns) y e = Returns-WhenOk returns y e
Ends-WhenOk (inr (left, why)) y e = cc

pub Ends-map {ℓ κ λ₁ μ} :
    {X : Type ℓ} {Good : X → Type κ} {Good' : X → Type λ₁} {Why : Type μ} {run : Run X}
    → ((x : X) → Good x → Good' x)
    → Ends run Good Why
    → Ends run Good' Why
Ends-map better (inl (x, run, good)) = inl (x, run, better x good)
Ends-map better (inr left) = inr left

pub ok-WhenOk {ℓ κ} : {X : Type ℓ} (Good : X → Type κ) (x : X) → Good x → WhenOk (ok x) Good
ok-WhenOk Good x good y e = let same : x ≡ y = cc in rw (← same) good

pub if-WhenOk {ℓ κ} :
    {X : Type ℓ} (Good : X → Type κ) (b : Bool) (then' else' : Run X)
    → WhenOk then' Good
    → WhenOk else' Good
    → WhenOk (if b then then' else else') Good
if-WhenOk Good true then' else' good good' = good
if-WhenOk Good false then' else' good good' = good'

-- What is known of the rest of a run whatever its first part returns.
pub WhenOk-then {ℓ κ μ} :
    {X : Type ℓ} {Y : Type κ} (run : Run X) (next : X → Run Y) (Good : Y → Type μ)
    → ((x : X) → WhenOk (next x) Good)
    → WhenOk (run >>= next) Good
WhenOk-then run next Good rest = WhenOk-bind run next (λ x. Unit {0}) Good (λ x e. tt) λ x u. rest x

pub option-WhenOk {ℓ κ μ ν} :
    {X : Type ℓ} {Y : Type κ} (o : Option X) (without : Run Y) (with' : X → Run Y)
    (Mid : Option X → Type ν) (Good : Y → Type μ)
    → Mid o
    → (Mid none → WhenOk without Good)
    → ((x : X) → Mid (some x) → WhenOk (with' x) Good)
    → WhenOk (elim o [ none ↦ without | some x ↦ with' x ]) Good
option-WhenOk none without with' Mid Good mid good good' = good mid
option-WhenOk (some x) without with' Mid Good mid good good' = good' x mid
