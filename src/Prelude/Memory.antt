-- ===== src/Prelude/Memory.antt =====
-- Byte memory: checked reads and writes of a region, little-endian fields of 16 and 32 bits, and
-- the wrap-around of a 32-bit size_t. A read or write past the end of a region is `none`.
use Prim.Native.Nat.{ℕ, zero, suc, ◌+◌, ◌-◌, ◌*◌, ◌/◌, ◌%◌, ◌^◌, ◌≤◌, ◌<◌}
use Prim.Native.Nat.add
use mathlib.Core.Path.{◌≡◌, refl, ap}
use mathlib.Core.List.{List, [], ◌∷◌, ◌++◌}
use mathlib.Core.Option.{Option, none, some}
use native.Mathlib.Omega.{arith}
use usbq_core.Prelude.Tests.{if◌then◌else◌, leb}
use native.Mathlib.Nat.{add-zero}
use usbq_core.Prelude.Lists.{
  drop-append, get_or-take, get_or-drop, drop-add, length, take, drop, get_or, length-append,
  length-drop, take-append,
}

abbrev pub Bytes : Type 0
Bytes = List ℕ

-- The number of values of a 32-bit word.
abbrev pub word : ℕ
word = 2 ^ 32

-- size_t a + b and a - b on the 32-bit target.
abbrev pub add32 : ℕ → ℕ → ℕ
add32 a b = (a + b) % word

abbrev pub sub32 : ℕ → ℕ → ℕ
sub32 a b = (a + word - b) % word

-- `src` written over `mem` from offset `off` on.
unfoldable pub overwrite : Bytes → ℕ → Bytes → Bytes
overwrite mem zero src = src ++ drop (length src) mem
overwrite [] (suc off) src = []
overwrite (b ∷ mem) (suc off) src = b ∷ overwrite mem off src

-- memcpy(mem + off, src, length src)
unfoldable pub store : Bytes → ℕ → Bytes → Option Bytes
store mem off src =
    if leb (off + length src) (length mem) then some (overwrite mem off src) else none

-- The `n` bytes at `mem + off`.
unfoldable pub load : Bytes → ℕ → ℕ → Option Bytes
load mem off n = if leb (off + n) (length mem) then some (take n (drop off mem)) else none

unfoldable pub le16 : ℕ → Bytes
le16 n = (n % 256) ∷ (n / 256 % 256) ∷ []

unfoldable pub le32 : ℕ → Bytes
le32 n = (n % 256) ∷ (n / 256 % 256) ∷ (n / 65536 % 256) ∷ (n / 16777216 % 256) ∷ []

unfoldable pub byte_at : Bytes → ℕ → ℕ
byte_at mem off = get_or mem off 0

unfoldable pub read16 : Bytes → ℕ → ℕ
unfolding byte_at
read16 mem off = byte_at mem off + 256 * byte_at mem (off + 1)

unfoldable pub read32 : Bytes → ℕ → ℕ
unfolding byte_at
read32 mem off =
    byte_at mem off
    + 256 * byte_at mem (off + 1)
    + 65536 * byte_at mem (off + 2)
    + 16777216 * byte_at mem (off + 3)

pub length-overwrite :
    (mem : Bytes) (off : ℕ) (src : Bytes)
    → off + length src ≤ length mem
    → length (overwrite mem off src) ≡ length mem
unfolding overwrite
length-overwrite mem zero src h =
    omega (arith, length-append src (drop (length src) mem), length-drop (length src) mem)
length-overwrite [] (suc off) src h = refl
length-overwrite (b ∷ mem) (suc off) src h = ap suc (length-overwrite mem off src (omega arith))

-- A write beyond the first `o` bytes leaves them, and is a write to the rest.
pub drop-overwrite :
    (o k : ℕ) (mem src : Bytes)
    → o ≤ length mem
    → drop o (overwrite mem (o + k) src) ≡ overwrite (drop o mem) k src
unfolding overwrite
drop-overwrite zero k mem src h = rw add.zero
drop-overwrite (suc o) k [] src h = absurd (omega arith)
drop-overwrite (suc o) k (b ∷ mem) src h = rw add.suc (drop-overwrite o k mem src (omega arith))

pub take-overwrite_before :
    (o k : ℕ) (mem src : Bytes) → o ≤ length mem → take o (overwrite mem (o + k) src) ≡ take o mem
unfolding overwrite
take-overwrite_before zero k mem src h = refl
take-overwrite_before (suc o) k [] src h = absurd (omega arith)
take-overwrite_before (suc o) k (b ∷ mem) src h =
    rw add.suc (ap (◌∷◌ b) (take-overwrite_before o k mem src (omega arith)))

pub take-overwrite :
    (k : ℕ) (mem src : Bytes)
    → k ≤ length mem
    → take (k + length src) (overwrite mem k src) ≡ take k mem ++ src
unfolding overwrite
take-overwrite zero mem src h = rw add.zero (take-append src (drop (length src) mem))
take-overwrite (suc k) [] src h = absurd (omega arith)
take-overwrite (suc k) (b ∷ mem) src h =
    rw add.suc (ap (◌∷◌ b) (take-overwrite k mem src (omega arith)))

-- A write leaves what stands behind it.
drop-overwrite_zero :
    (k : ℕ) (mem src : Bytes)
    → length src ≤ length mem
    → drop (length src + k) (overwrite mem 0 src) ≡ drop (length src + k) mem
unfolding overwrite
drop-overwrite_zero k mem src h = rw (
  drop-add (length src) k (src ++ drop (length src) mem),
  drop-append,
  drop-add (length src) k mem,
)

pub drop-overwrite_past :
    (off k : ℕ) (mem src : Bytes)
    → off + length src ≤ length mem
    → drop (off + (length src + k)) (overwrite mem off src) ≡ drop (off + (length src + k)) mem
unfolding overwrite
drop-overwrite_past zero k mem src h = rw add.zero (drop-overwrite_zero k mem src (omega arith))
drop-overwrite_past (suc off) k [] src h = absurd (omega arith)
drop-overwrite_past (suc off) k (b ∷ mem) src h =
    rw add.suc (drop-overwrite_past off k mem src (omega arith))

pub store-ok :
    (mem : Bytes) (off : ℕ) (src : Bytes)
    → off + length src ≤ length mem
    → store mem off src ≡ some (overwrite mem off src)
unfolding store
store-ok mem off src h = ground arith

pub load-ok :
    (mem : Bytes) (off n : ℕ) → off + n ≤ length mem → load mem off n ≡ some (take n (drop off mem))
unfolding load
load-ok mem off n h = ground arith

pub read32-le32 : (n : ℕ) (rest : Bytes) → n < word → read32 (le32 n ++ rest) 0 ≡ n
unfolding read32 le32
read32-le32 n rest h = omega arith

pub read16-le16 : (n : ℕ) (rest : Bytes) → n < 2 ^ 16 → read16 (le16 n ++ rest) 0 ≡ n
unfolding read16 le16
read16-le16 n rest h = omega arith

-- A field is read from the part of the memory that holds it.
pub read32-take : (n off : ℕ) (mem : Bytes) → off + 4 ≤ n → read32 (take n mem) off ≡ read32 mem off
unfolding read32 byte_at
read32-take n off mem h = rw (
  get_or-take n off mem 0 (omega arith),
  get_or-take n (off + 1) mem 0 (omega arith),
  get_or-take n (off + 2) mem 0 (omega arith),
  get_or-take n (off + 3) mem 0 (omega arith),
)

pub read32-drop : (n : ℕ) (mem : Bytes) → read32 (drop n mem) 0 ≡ read32 mem n
unfolding read32 byte_at
read32-drop n mem =
    rw
      (get_or-drop n 0 mem, get_or-drop n 1 mem, get_or-drop n 2 mem, get_or-drop n 3 mem, add-zero)

pub drop-overwrite_at :
    (off : ℕ) (mem src : Bytes)
    → off ≤ length mem
    → drop off (overwrite mem off src) ≡ overwrite (drop off mem) 0 src
drop-overwrite_at off mem src h = rw add-zero at (drop-overwrite off 0 mem src h)

pub read32-overwrite :
    (off n : ℕ) (mem : Bytes)
    → off ≤ length mem
    → n < word
    → read32 (overwrite mem off (le32 n)) off ≡ n
read32-overwrite off n mem small h =
    rw (← read32-drop off, drop-overwrite_at off mem (le32 n) small)
      (unfold overwrite in read32-le32 n _ h)

pub read16-take : (n off : ℕ) (mem : Bytes) → off + 2 ≤ n → read16 (take n mem) off ≡ read16 mem off
unfolding read16 byte_at
read16-take n off mem h =
    rw (get_or-take n off mem 0 (omega arith), get_or-take n (off + 1) mem 0 (omega arith))

pub take-overwrite_at :
    (off : ℕ) (mem src : Bytes) → off ≤ length mem → take off (overwrite mem off src) ≡ take off mem
take-overwrite_at off mem src h = rw add-zero at (take-overwrite_before off 0 mem src h)
