-- ===== src/Config/Error/Located.antt =====
-- Errors that lie within the line that they name, and the computations that report such errors.
use panopti_dns.Prelude.{
  ℕ, ◌≤◌, Bool, true, false, Option, none, some, List, [], ◌∷◌, ◌++◌, arith, length, All,
  All-append,
}
use panopti_dns.Bytes.{Bytes}
use panopti_dns.Config.Error.{ConfigError, ConfigErrorKind, RawValue, error, error_at}
use panopti_dns.Config.Compile.{Check, pass, reject, after_check, ◌>>=◌, ◌>>◌, demand, or_reject}

abbrev pub IsWithin : Option (ℕ × ℕ) → Bytes → Type 0
IsWithin none line = Unit {0}
IsWithin (some (start, end)) line = (start ≤ end) × (end ≤ length line)

-- A line is named, and the span is a range within its text.
unfoldable pub IsLocated : ConfigError → Type 0
IsLocated e = (1 ≤ e.line) × IsWithin e.span e.snippet

-- The same of a value that was read.
unfoldable pub IsPlaced : RawValue → Type 0
IsPlaced v = (1 ≤ v.line) × (v.span.0 ≤ v.span.1) × (v.span.1 ≤ length v.raw_line)

pub error-IsLocated :
    (v : RawValue) (kind : ConfigErrorKind) → IsPlaced v → IsLocated (error v kind)
unfolding error IsLocated IsPlaced
error-IsLocated v kind (a, b, c) = (a, (b, c))

pub error_at-IsLocated :
    (v : RawValue) (offset len : ℕ) (kind : ConfigErrorKind)
    → IsPlaced v
    → IsLocated (error_at v offset len kind)
unfolding error_at IsLocated IsPlaced
error_at-IsLocated v offset len kind (a, b, c) = (a, (omega arith, omega arith))

-- If the errors so far are located, so are those after it.
unfoldable pub Locates {ℓ} : {A : Type ℓ} → Check A → Type 0
Locates m = (errors : List ConfigError) → All IsLocated errors → All IsLocated (m errors).1

pub All-snoc :
    (errors : List ConfigError) (e : ConfigError)
    → All IsLocated errors
    → IsLocated e
    → All IsLocated (errors ++ e ∷ [])
All-snoc errors e h fine = All-append IsLocated errors (e ∷ []) h (fine, tt)

pub Locates-pass : {A : Type 0} (a : A) → Locates (pass a)
unfolding Locates
Locates-pass a errors h = h

pub Locates-reject : (A : Type 0) (e : ConfigError) → IsLocated e → Locates {A = A} (reject e)
unfolding Locates
Locates-reject A e fine errors h = All-snoc errors e h fine

pub Locates-bind :
    {A B : Type 0} (m : Check A) (f : A → Check B)
    → Locates m
    → ((a : A) → Locates (f a))
    → Locates (m >>= f)
unfolding Locates
Locates-bind {A = A} {B = B} m f hm hf errors h = after (m errors) (hm errors h)
  where
    after :
        (r : Option A × List ConfigError) → All IsLocated r.1 → All IsLocated (after_check f r).1
    after (none, es) fine = fine
    after (some a, es) fine = hf a es fine

-- `or_reject o e`, and what follows.
pub Locates-or_reject :
    {A B : Type 0} (o : Option A) (e : ConfigError) (f : A → Check B)
    → IsLocated e
    → ((a : A) → Locates (f a))
    → Locates (or_reject o e >>= f)
unfolding Locates
Locates-or_reject none e f fine hf errors h = All-snoc errors e h fine
Locates-or_reject (some a) e f fine hf errors h = hf a errors h

-- `demand b e`, and what follows.
pub Locates-demand :
    {B : Type 0} (b : Bool) (e : ConfigError) (m : Check B)
    → IsLocated e
    → Locates m
    → Locates (demand b e >> m)
unfolding Locates
Locates-demand true e m fine hm errors h = hm errors h
Locates-demand false e m fine hm errors h = All-snoc errors e h fine
