-- ===== src/Base/Words.antt =====
-- Unsigned machine words as native numbers, the test of a mask, and C memory as lists of bytes: an
-- access out of bounds is `none`.
use Prim.Native.Nat.{ℕ, ◌+◌, ◌%◌, ◌^◌, bit_and, bit_or}
use mathlib.Core.Path.{◌≡◌, refl}
use mathlib.Core.Bool.{Bool, not, ◌&&◌}
use mathlib.Core.Option.{Option, none, some}
use mathlib.Core.List.{List, ◌++◌}
use gs_usb_user.Base.Tests.{ltb, leb, ◌==◌, if◌then◌else◌}
use gs_usb_user.Base.Lists.{length, set, take, drop}

abbrev pub u8 : ℕ → ℕ
u8 n = n % 2 ^ 8

abbrev pub u16 : ℕ → ℕ
u16 n = n % 2 ^ 16

abbrev pub u32 : ℕ → ℕ
u32 n = n % 2 ^ 32

abbrev pub u64 : ℕ → ℕ
u64 n = n % 2 ^ 64

-- `(x & mask) != 0`
abbrev pub has : ℕ → ℕ → Bool
has x mask = not (bit_and x mask == 0)

-- `if (c) x |= mask;`
abbrev pub or_if : Bool → ℕ → ℕ → ℕ
or_if c mask x = if c then bit_or x mask else x

-- A bind of `Option` stops at the first `none`.
infixl 5 ◌>>=◌
abbrev pub ◌>>=◌ {ℓ κ} : {A : Type ℓ} {B : Type κ} → Option A → (A → Option B) → Option B
none >>= f = none
some a >>= f = f a

pub >>=-eq-some {ℓ κ} :
    {A : Type ℓ} {B : Type κ} (m : Option A) (f : A → Option B) {b : B}
    → (m >>= f) ≡ some b
    → (a : A) × (m ≡ some a) × (f a ≡ some b)
>>=-eq-some none f h = cc
>>=-eq-some (some a) f h = (a, (λ _. some a), h)

pub >>=-ext {ℓ κ} :
    {A : Type ℓ} {B : Type κ} (m : Option A) {f g : A → Option B}
    → ((a : A) → f a ≡ g a)
    → (m >>= f) ≡ (m >>= g)
>>=-ext none h = refl
>>=-ext (some a) h = h a

-- `p[i] = v`
abbrev pub store : List ℕ → ℕ → ℕ → Option (List ℕ)
store p i v = if ltb i (length p) then some (set p i v) else none

-- `memcpy(dst + to, src + from, n)`
abbrev pub memcpy : List ℕ → ℕ → List ℕ → ℕ → ℕ → Option (List ℕ)
memcpy dst to src from n =
    if leb (to + n) (length dst) && leb (from + n) (length src)
    then some (take to dst ++ (take n (drop from src) ++ drop (to + n) dst))
    else none
