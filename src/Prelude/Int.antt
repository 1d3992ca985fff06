-- ===== src/Prelude/Int.antt =====
-- Go's `int`, which is read from JSON and from forms: keep counts and row indices.
use Prim.Native.Nat.{ℕ, suc, ◌+◌, ◌-◌, ◌*◌, ◌^◌, ◌/◌, ◌%◌}
use mathlib.Core.Bool.{Bool, false, ◌&&◌}
use mathlib.Core.Option.{Option, none, some}
use mathlib.Core.List.{[], ◌∷◌, ◌++◌}
use homelab_db_provisioner.Prelude.Tests.{ltb, leb, ◌==◌, if◌then◌else◌}
use homelab_db_provisioner.Prelude.Strings.{Text}

-- `negsuc n` is -(n + 1).
pub data ℤ : Type 0 where
  pos : ℕ → ℤ
  negsuc : ℕ → ℤ

-- `n > 0`
abbrev pub is_positive : ℤ → Bool
is_positive (pos n) = ltb 0 n
is_positive (negsuc n) = false

-- The number, 0 if it is negative.
abbrev pub to_nat : ℤ → ℕ
to_nat (pos n) = n
to_nat (negsuc n) = 0

-- The index, if it is neither negative nor at least the length.
abbrev pub in_range : ℤ → ℕ → Option ℕ
in_range (pos n) len = if ltb n len then some n else none
in_range (negsuc n) len = none

digits : ℕ → Text → Option ℕ
digits n [] = some n
digits n (c ∷ s) =
    let rest = digits (n * 10 + (c - 48)) s in if leb 48 c && leb c 57 then rest else none

digits_nonempty : Text → Option ℕ
unfolding digits
digits_nonempty [] = none
digits_nonempty (c ∷ s) = digits 0 (c ∷ s)

-- -n
negate : ℕ → ℤ
negate ℕ.zero = pos 0
negate (suc n) = negsuc n

up_to : ℕ → Option ℕ → Option ℕ
up_to limit none = none
up_to limit (some n) = if leb n limit then some n else none

signed : (ℕ → ℤ) → Option ℕ → Option ℤ
signed f none = none
signed f (some n) = some (f n)

-- `strconv.Atoi` on a 64-bit machine: an optional sign and digits, in the range of `int64`.
unfoldable pub atoi : Text → Option ℤ
unfolding digits_nonempty negate up_to signed
atoi [] = none
atoi (c ∷ s) =
    if c == b'-'
    then signed negate (up_to (2 ^ 63) (digits_nonempty s))
    else if c == b'+'
    then signed pos (up_to (2 ^ 63 - 1) (digits_nonempty s))
    else signed pos (up_to (2 ^ 63 - 1) (digits_nonempty (c ∷ s)))

-- The digits of a number below `10 ^ fuel`.
unfoldable pub decimal : ℕ → ℕ → Text
decimal ℕ.zero n = []
decimal (suc fuel) n =
    let rest = decimal fuel (n / 10) in
    let last = (n % 10 + 48) ∷ [] in if ltb n 10 then last else rest ++ last

-- `%d` of a number that is not negative. A number has at most as many digits as it counts, and one
-- more.
unfoldable pub itoa : ℕ → Text
unfolding decimal
itoa n = decimal (suc n) n

-- `%d`
unfoldable pub int_text : ℤ → Text
unfolding itoa
int_text (pos n) = itoa n
int_text (negsuc n) = b'-' ∷ itoa (suc n)
