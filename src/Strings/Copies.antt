-- ===== src/Strings/Copies.antt =====
-- `strlen`, `strlcpy` and `strlcat`.
use projectmod.Base.{
  ℕ, zero, suc, ◌+◌, ◌-◌, ◌≤◌, ◌<◌, ◌≡◌, refl, ◌≢◌, ◌⊎◌, inl, inr, true, false, ◌&&◌, some, arith,
  ◌==◌, ltb, if◌then◌else◌, Bool-cases, eq→==, ne→==, min,
}
use projectmod.Strings.{Memory, store, memcpy, strlen, strlcpy, strlcat}
use projectmod.Strings.Blocks.{copied, memcpy_lem}

-- A string of `n` characters at `p`
pub record IsString (p n : ℕ) (m : Memory) : Type 0 where
  pub ends : m (p + n) ≡ 0
  pub chars : (j : ℕ) → j < n → m (p + j) ≢ 0

pub strlen_lem : (fuel p n : ℕ) (m : Memory) → IsString p n m → n < fuel → strlen fuel p m ≡ some n
unfolding strlen
strlen_lem zero p n m s h = absurd (omega arith)
strlen_lem (suc f) p zero m s h =
    let here : (m p == 0) ≡ true =
      let e : p + 0 ≡ p = omega arith in eq→== (m p) 0 (rw e at s.ends) in
    rw (here, strlen) refl
strlen_lem (suc f) p (suc n) m s h =
    let e : p + 0 ≡ p = omega arith in
    let here : (m p == 0) ≡ false = ne→== (m p) 0 (rw e at (s.chars 0 (omega arith))) in
    let next : p + suc n ≡ p + 1 + n = omega arith in
    let rest =
      strlen_lem f (p + 1) n m
        (record {
          ends = rw next at s.ends;
          chars = λ j q z. s.chars (j + 1) (omega arith) (rw (shift j) z);
        })
        (omega arith) in
    rw (here, strlen) (rw rest (ground arith))
  where
    shift : (j : ℕ) → p + (j + 1) ≡ p + 1 + j
    shift j = omega arith

-- The target at `p` has `n` characters of `src` in a string that begins at `dst`, and bytes outside
-- the `size` of the target are as before.
pub record Wrote (dst p src n size : ℕ) (m m' : Memory) : Type 0 where
  pub ends : m' (p + n) ≡ 0
  pub bytes : (j : ℕ) → j < n → m' (p + j) ≡ m (src + j)
  pub before : (j : ℕ) → dst + j < p → m' (dst + j) ≡ m (dst + j)
  pub outside : (a : ℕ) → (a < dst) ⊎ (dst + size ≤ a) → m' a ≡ m a

-- Characters copied to `p` and a null behind them.
wrote :
    (dst p src n size : ℕ) (m : Memory)
    → dst ≤ p
    → p + n < dst + size
    → (p ≤ src) ⊎ (src + n ≤ p)
    → Wrote dst p src n size m (store (p + n) 0 (memcpy n p src m))
wrote dst p src n size m lo hi apart = record {
  ends = ground arith;
  bytes = λ j q.
      let back : src + (p + j - p) ≡ src + j = omega arith in
      let moved : copied p src n m (p + j) ≡ m (src + j) = rw back (ground (arith, q)) in
      ground (arith, memcpy_lem n p src m (p + j) apart, moved, q);
  before = λ j q. ground (arith, memcpy_lem n p src m (dst + j) apart, q);
  outside = λ a q. ground (arith, memcpy_lem n p src m a apart, q);
}

-- `strlcpy` from a string of `n` characters that the target does not begin in returns `n`. With room
-- for `size` bytes, not 0, the target gets as many of the characters as leave room for the null that
-- follows them; no byte outside it changes. With no room nothing changes.
pub strlcpy_lem :
    (fuel dst src size n : ℕ) (m : Memory)
    → IsString src n m
    → n < fuel
    → (dst ≤ src) ⊎ (src + n ≤ dst)
    → (m' : Memory) × (strlcpy fuel dst src size m ≡ some (n, m'))
      × (0 < size → Wrote dst dst src (min n (size - 1)) size m m')
      × (size ≡ 0 → m' ≡ m)
unfolding strlcpy
strlcpy_lem fuel dst src size n m s h apart =
    let len = strlen_lem fuel src n m s h in
    let least : (if ltb n (size - 1) then n else size - 1) ≡ min n (size - 1) = ground arith in
    rw (len, least)
      (elim (Bool-cases (ltb 0 size)) [
        | inl room ↦ rw room (
          _,
          refl,
          λ p.
              wrote dst dst src (min n (size - 1)) size m (omega arith) (omega arith)
                (ground (arith, apart)),
          λ z. absurd (ground (arith, room, z)),
        )
        | inr none_left ↦
            rw none_left (m, refl, λ p. absurd (ground (arith, none_left, p)), λ z. refl)
      ])

-- `strlcat` of a string of `n` characters to one of `d` characters in a target of `size` bytes, which
-- do not overlap, returns the sum of the lengths. If the target's string ends in it, as many of the
-- characters follow as leave room for the null; the old ones and the bytes outside stay. Else nothing
-- changes: a target that is not empty, but has no null among its `size` bytes, gets none, against the
-- comment on `strlcat`.
pub strlcat_lem :
    (fuel dst src size n d : ℕ) (m : Memory)
    → IsString src n m
    → IsString dst d m
    → n < fuel
    → d < fuel
    → (dst + size ≤ src) ⊎ (src + n ≤ dst)
    → (m' : Memory) × (strlcat fuel dst src size m ≡ some (n + d, m'))
      × (d < size → Wrote dst (dst + d) src (min n (size - d - 1)) size m m')
      × (size ≤ d → m' ≡ m)
unfolding strlcat
strlcat_lem fuel dst src size n d m s t h h' apart =
    let len = strlen_lem fuel src n m s h in
    let len' = strlen_lem fuel dst d m t h' in
    let least : (if ltb n (size - d - 1) then n else size - d - 1) ≡ min n (size - d - 1) =
      ground arith in
    rw (len, len', least)
      (elim (Bool-cases (ltb 0 size && ltb d size)) [
        | inl room ↦
            let inside : d < size = ground (arith, room) in
            rw room (
              _,
              refl,
              λ p.
                  wrote dst (dst + d) src (min n (size - d - 1)) size m (omega arith)
                    (omega (arith, inside)) (ground (arith, apart, inside)),
              λ z. absurd (omega (arith, inside, z)),
            )
        | inr none_left ↦
            rw none_left (m, refl, λ p. absurd (ground (arith, none_left, p)), λ z. refl)
      ])
