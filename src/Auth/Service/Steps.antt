-- ===== src/Auth/Service/Steps.antt =====
-- Reasoning along the early returns of an operation (api/src/auth/service.rs, the operator `?`).
use easy_deploy.Prelude.{Bool, true, false, ◌≡◌, refl, Result, ok, err, if◌then◌else◌}
use easy_deploy.Auth.Types.{AuthError}
use easy_deploy.Auth.Service.{AuthService, Outcome, ◌>>=◌}

-- What holds before a step that computes without writing, holds after the rest.
pub pure-keep {κ} :
    {A B : Type 0} (G : AuthService → Type κ) (auth : AuthService) (r : Result A AuthError)
    (f : AuthService × A → Outcome B)
    → G auth
    → ((x : A) → G (f (auth, x)).0)
    → G ((auth, r) >>= f).0
pure-keep G auth (ok x) f start h = h x
pure-keep G auth (err e) f start h = start

-- A step that computes without writing, on the way to a success.
pub pure-ok :
    {A B : Type 0} (G : AuthService → Type 0) (auth : AuthService) (r : Result A AuthError)
    (f : AuthService × A → Outcome B) {y : B}
    → ((x : A) → r ≡ ok x → (f (auth, x)).1 ≡ ok y → G (f (auth, x)).0)
    → ((auth, r) >>= f).1 ≡ ok y
    → G ((auth, r) >>= f).0
pure-ok G auth (ok x) f h e = h x refl e
pure-ok G auth (err x) f h e = cc

-- A guard on the way to a success.
pub guard-ok :
    {B : Type 0} (G : AuthService → Type 0) (auth : AuthService) (b : Bool) (failure : AuthError)
    (m : Outcome B) {y : B}
    → (m.1 ≡ ok y → G m.0)
    → (if b then (auth, err failure) else m).1 ≡ ok y
    → G (if b then (auth, err failure) else m).0
guard-ok G auth true failure m h e = cc
guard-ok G auth false failure m h e = h e

-- A test that has to succeed.
pub fits-ok :
    {B : Type 0} (G : AuthService → Type 0) (auth : AuthService) (b : Bool) (failure : AuthError)
    (m : Outcome B) {y : B}
    → (m.1 ≡ ok y → G m.0)
    → (if b then m else (auth, err failure)).1 ≡ ok y
    → G (if b then m else (auth, err failure)).0
fits-ok G auth true failure m h e = h e
fits-ok G auth false failure m h e = cc

-- A step that writes, on the way to a success.
pub bind-ok :
    {A B : Type 0} (G : AuthService → Type 0) (m : Outcome A) (f : AuthService × A → Outcome B)
    {y : B}
    → ((x : A) → m.1 ≡ ok x → (f (m.0, x)).1 ≡ ok y → G (f (m.0, x)).0)
    → (m >>= f).1 ≡ ok y
    → G (m >>= f).0
bind-ok G (before, ok x) f h e = h x refl e
bind-ok G (before, err x) f h e = cc

-- The same, of the result too, and with what the step yields.
pub pure-holds {κ} :
    {A B : Type 0} (H : Outcome B → Type κ) (auth : AuthService) (r : Result A AuthError)
    (f : AuthService × A → Outcome B)
    → ((e : AuthError) → H (auth, err e))
    → ((x : A) → r ≡ ok x → H (f (auth, x)))
    → H ((auth, r) >>= f)
pure-holds H auth (ok x) f failed h = h x refl
pure-holds H auth (err e) f failed h = failed e
