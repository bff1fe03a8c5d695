-- ===== src/Strings/Copy.antt =====
-- memcpy and memset of lib/string.c.
use oscar_kernel.Common.{
  ℕ, zero, suc, ◌+◌, ◌-◌, ◌≤◌, ◌<◌, ◌≡◌, Bool, ◌&&◌, Store, update, ltb, leb, if◌then◌else◌, arith,
  Bool-cases, inl, inr,
}
use oscar_kernel.Strings.{copy_down, copy_up, memcpy, fill, memset}

-- Whether `x` is one of the `size` addresses from `start`.
abbrev pub inside : ℕ → ℕ → ℕ → Bool
inside start size x = leb start x && ltb x (start + size)

copy_down-moves :
    (m : Store) (dst src size x : ℕ)
    → src < dst
    → copy_down m dst src size x ≡ (if inside dst size x then m (src + (x - dst)) else m x)
unfolding copy_down
copy_down-moves m dst src zero x h = ground arith
copy_down-moves m dst src (suc size) x h =
    let n : Store = update m (dst + size) (m (src + size)) in
    elim (Bool-cases (inside dst size x)) [
      | inl b ↦ ground (arith, copy_down-moves n dst src size x h)
      | inr b ↦ ground (arith, copy_down-moves n dst src size x h)
    ]

copy_up-moves :
    (m : Store) (dst src i left x : ℕ)
    → dst ≤ src
    → copy_up m dst src i left x ≡ (if inside (dst + i) left x then m (src + (x - dst)) else m x)
unfolding copy_up
copy_up-moves m dst src i zero x h = ground arith
copy_up-moves m dst src i (suc left) x h =
    let n : Store = update m (dst + i) (m (src + i)) in
    ground (arith, copy_up-moves n dst src (i + 1) left x h)

fill-fills :
    (m : Store) (dst value i left x : ℕ)
    → fill m dst value i left x ≡ (if inside (dst + i) left x then value else m x)
unfolding fill
fill-fills m dst value i zero x = ground arith
fill-fills m dst value i (suc left) x =
    ground (arith, fill-fills (update m (dst + i) value) dst value (i + 1) left x)

-- For pointers that are not NULL `memcpy` leaves at the destination the bytes that the source had
-- before, however the two overlap, and changes nothing else.
pub memcpy-moves :
    (m : Store) (dst src size x : ℕ)
    → 0 < dst
    → 0 < src
    → memcpy m dst src size x ≡ (if inside dst size x then m (src + (x - dst)) else m x)
unfolding memcpy
memcpy-moves m dst src size x hd hs =
    ground (arith, copy_down-moves m dst src size x, copy_up-moves m dst src 0 size x)

-- `memset` at an address that is not NULL sets exactly the `size` bytes from it to the value.
pub memset-fills :
    (m : Store) (dst value size x : ℕ)
    → 0 < dst
    → memset m dst value size x ≡ (if inside dst size x then value else m x)
unfolding memset
memset-fills m dst value size x hd = ground (arith, fill-fills m dst value 0 size x)
