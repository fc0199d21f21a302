-- ===== src/Config/Produced.antt =====
-- internal/config: what a function of the loader produces where it gives no error.
use placitum_counter.Prelude.{
  Bool, Result, String, err, fail_if, false, if◌then◌else◌, ok, refl, subst, true, ◌>>=◌, ◌>>◌, ◌≡◌,
}

abbrev pub Holds {ℓ κ} : {A : Type ℓ} → (A → Type κ) → Result A → Type κ
Holds P (ok a) = P a
Holds P (err e) = Unit

-- What is produced, if there is no error, has a property.
pub record WhenOk {ℓ κ} {A : Type ℓ} (P : A → Type κ) (r : Result A) : Type κ where
  pub holds : Holds P r

pub accept {ℓ κ} : {A : Type ℓ} {P : A → Type κ} {a : A} → P a → WhenOk P (ok a)
accept h = record { holds = h }

pub refused {ℓ κ} : {A : Type ℓ} {P : A → Type κ} {e : String} → WhenOk P (err e)
refused = record { holds = tt }

pub WhenOk->>= {ℓ κ μ ν} :
    {A : Type ℓ} {B : Type κ} (Q : A → Type μ) (P : B → Type ν) (m : Result A) (f : A → Result B)
    → WhenOk Q m
    → ((a : A) → Q a → WhenOk P (f a))
    → WhenOk P (m >>= f)
WhenOk->>= Q P (ok a) f h next = next a h.holds
WhenOk->>= Q P (err e) f h next = refused

pub WhenOk-any->>= {ℓ κ ν} :
    {A : Type ℓ} {B : Type κ} (P : B → Type ν) (m : Result A) (f : A → Result B)
    → ((a : A) → WhenOk P (f a))
    → WhenOk P (m >>= f)
WhenOk-any->>= P (ok a) f next = next a
WhenOk-any->>= P (err e) f next = refused

pub WhenOk-if {ℓ κ} :
    {A : Type ℓ} {P : A → Type κ} {m k : Result A} (b : Bool)
    → WhenOk P m
    → WhenOk P k
    → WhenOk P (if b then m else k)
WhenOk-if true met rest = met
WhenOk-if false met rest = rest

pub WhenOk->> {ℓ κ} :
    {A : Type ℓ} {P : A → Type κ} {k : Result A} (m : Result (Unit {0}))
    → WhenOk P k
    → WhenOk P (m >> k)
WhenOk->> (ok u) h = h
WhenOk->> (err e) h = refused

-- Past a guard.
pub WhenOk-fail_if-ok {ℓ κ} :
    {A : Type ℓ} {P : A → Type κ} (a : A) (b : Bool) (e : String)
    → (b ≡ false → P a)
    → WhenOk P (fail_if b e >> ok a)
WhenOk-fail_if-ok a true e next = refused
WhenOk-fail_if-ok a false e next = accept (next refl)

pub WhenOk-eq {ℓ κ} :
    {A : Type ℓ} (P : A → Type κ) (m : Result A) (a : A) → WhenOk P m → m ≡ ok a → P a
WhenOk-eq P m a h e = subst (Holds P) e h.holds
