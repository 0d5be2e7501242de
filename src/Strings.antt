-- ===== src/Strings.antt =====
-- lib/string.c: blocks of bytes and strings in memory, which is a function from addresses to bytes.
-- Addresses do not wrap: no block reaches past the end of memory. memset stands in Palloc.antt.
mod Blocks
mod Copies
mod Tests
use projectmod.Base.{
  ℕ, zero, suc, ◌+◌, ◌-◌, Bool, true, false, not, ◌&&◌, Option, none, some, ◌==◌, ltb,
  if◌then◌else◌, ◌>>=◌,
}
use projectmod.Stdlib.{Sign, below, equal, above}

abbrev pub Memory : Type 0
Memory = ℕ → ℕ

abbrev pub store : ℕ → ℕ → Memory → Memory
store p v m a = if a == p then v else m a

-- `while (size-- > 0) *dst++ = *src++;`
unfoldable pub memcpy : (size dst src : ℕ) → Memory → Memory
memcpy zero dst src m = m
memcpy (suc n) dst src m = memcpy n (dst + 1) (src + 1) (store dst (m src) m)

-- `while (size-- > 0) *--dst = *--src;`
unfoldable pub copy_down : (size dst src : ℕ) → Memory → Memory
copy_down zero dst src m = m
copy_down (suc n) dst src m = copy_down n (dst - 1) (src - 1) (store (dst - 1) (m (src - 1)) m)

-- `memmove`: the pointer that it returns, and the memory.
unfoldable pub memmove : (dst src size : ℕ) → Memory → ℕ × Memory
unfolding memcpy copy_down
memmove dst src size m =
    if ltb dst src
    then (dst + size, memcpy size dst src m)
    else (dst, copy_down size (dst + size) (src + size) m)

unfoldable pub memcmp : (size a b : ℕ) → Memory → Sign
memcmp zero a b m = equal
memcmp (suc n) a b m =
    let rest = memcmp n (a + 1) (b + 1) m in
    if not (m a == m b) then (if ltb (m b) (m a) then above else below) else rest

-- The address found, or `none` for the null pointer
unfoldable pub memchr : (size block ch : ℕ) → Memory → Option ℕ
memchr zero block ch m = none
memchr (suc n) block ch m =
    let rest = memchr n (block + 1) ch m in if m block == ch then some block else rest

-- `strlen`, with fuel for its loop; `none` is that it runs on.
unfoldable pub strlen : (fuel string : ℕ) → Memory → Option ℕ
strlen zero p m = none
strlen (suc f) p m = elim (m p == 0) [
  | true ↦ some 0
  | false ↦ strlen f (p + 1) m >>= λ n. some (n + 1)
]

-- `strlcpy` and `strlcat`: the length that is returned, and the memory.
unfoldable pub strlcpy : (fuel dst src size : ℕ) → Memory → Option (ℕ × Memory)
unfolding memcpy strlen
strlcpy fuel dst src size m = strlen fuel src m >>= λ src_len.
    let dst_len = if ltb src_len (size - 1) then src_len else size - 1 in
    if ltb 0 size
    then some (src_len, store (dst + dst_len) 0 (memcpy dst_len dst src m))
    else some (src_len, m)

unfoldable pub strlcat : (fuel dst src size : ℕ) → Memory → Option (ℕ × Memory)
unfolding memcpy strlen
strlcat fuel dst src size m = strlen fuel src m >>= λ src_len. strlen fuel dst m >>= λ dst_len.
    let room = size - dst_len - 1 in
    let copy_cnt = if ltb src_len room then src_len else room in
    if ltb 0 size && ltb dst_len size
    then some (
      src_len + dst_len,
      store (dst + dst_len + copy_cnt) 0 (memcpy copy_cnt (dst + dst_len) src m),
    )
    else some (src_len + dst_len, m)
