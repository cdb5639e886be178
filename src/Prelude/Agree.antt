-- ===== src/Prelude/Agree.antt =====
-- Two calls that both return, with the same value.
use mathlib.Core.Path.{◌≡◌, refl}
use mathlib.Core.Bool.{Bool, true, false}
use geometry.Prelude.Tests.{if◌then◌else◌}
use geometry.Prelude.Run.{Run, ok, Returns, ◌>>=◌, or_else, and_then}

-- The values of the two calls are related.
abbrev pub AgreeBy {ℓ κ} : {A : Type ℓ} → (A → A → Type κ) → Run A → Run A → Type (ℓ ⊔ κ)
AgreeBy R r r' = Returns (λ a. Returns (λ a'. R a a') r') r

abbrev pub Agree {ℓ} : {A : Type ℓ} → Run A → Run A → Type ℓ
Agree r r' = Returns (λ a. r' ≡ ok a) r

pub ok-Agree {ℓ} : {A : Type ℓ} (a : A) → Agree (ok a) (ok a)
ok-Agree a = (a, refl, refl)

pub bind-AgreeBy {ℓ κ μ} :
    {A : Type ℓ} {B : Type κ} (R : A → A → Type μ) (r r' : Run A) (f f' : A → Run B)
    → AgreeBy R r r'
    → ((a a' : A) → R a a' → Agree (f a) (f' a'))
    → Agree (r >>= f) (r' >>= f')
bind-AgreeBy R r r' f f' (a, run, (a', run', related)) h =
    let (b, end, end') = h a a' related in (b, rw run end, rw run' end')

pub bind-Agree {ℓ κ} :
    {A : Type ℓ} {B : Type κ} (r r' : Run A) (f f' : A → Run B)
    → Agree r r'
    → ((a : A) → r ≡ ok a → Agree (f a) (f' a))
    → Agree (r >>= f) (r' >>= f')
bind-Agree r r' f f' (a, run, run') h =
    let (b, end, end') = h a run in (b, rw run end, rw run' end')

-- The two tests have the same outcome.
pub if-Agree {ℓ} :
    {A : Type ℓ} (b b' : Bool) (x x' y y' : Run A)
    → b' ≡ b
    → Agree x x'
    → Agree y y'
    → Agree (if b then x else y) (if b' then x' else y')
if-Agree true b' x x' y y' e h k = rw e h
if-Agree false b' x x' y y' e h k = rw e k

pub or_else-Agree :
    (x x' y y' : Run Bool) → Agree x x' → Agree y y' → Agree (or_else x y) (or_else x' y')
or_else-Agree x x' y y' h k =
    bind-Agree x x' _ _ h λ b e. if-Agree b b (ok true) (ok true) y y' refl (ok-Agree true) k

pub and_then-Agree :
    (x x' y y' : Run Bool) → Agree x x' → Agree y y' → Agree (and_then x y) (and_then x' y')
and_then-Agree x x' y y' h k =
    bind-Agree x x' _ _ h λ b e. if-Agree b b y y' (ok false) (ok false) refl k (ok-Agree false)

-- The same, where each case may use the outcome.
pub if-Agree_when {ℓ} :
    {A : Type ℓ} (b b' : Bool) (x x' y y' : Run A)
    → b' ≡ b
    → (b ≡ true → Agree x x')
    → (b ≡ false → Agree y y')
    → Agree (if b then x else y) (if b' then x' else y')
if-Agree_when true b' x x' y y' e h k = rw e (h refl)
if-Agree_when false b' x x' y y' e h k = rw e (k refl)
