-- ===== src/Strings/Tests.antt =====
-- The theorems on a memory with "xy" at 20 and "a" at 10.
use projectmod.Base.{
  ℕ, ◌+◌, ◌-◌, ◌≤◌, ◌<◌, ◌≡◌, refl, inl, some, arith, ◌==◌, ltb, if◌then◌else◌, min,
}
use projectmod.Strings.{Memory, memmove, strlcat}
use projectmod.Strings.Blocks.{copied, memmove_lem}
use projectmod.Strings.Copies.{IsString, Wrote, strlcat_lem}

abbrev texts : Memory
texts a = if a == 20 then b'x' else (if a == 21 then b'y' else (if a == 10 then b'a' else 0))

two : IsString 20 2 texts
two = record { ends = refl; chars = λ j p. ground (arith, p) }

one : IsString 10 1 texts
one = record { ends = refl; chars = λ j p. ground (arith, p) }

memmove_lem_example :
    ((a : ℕ) → (memmove 9 10 12 texts).1 a ≡ copied 9 10 12 texts a)
    × ((memmove 9 10 12 texts).0 ≡ (if ltb 9 10 then 9 + 12 else 9))
memmove_lem_example = memmove_lem 9 10 12 texts

strlcat_lem_example :
    (m' : Memory) × (strlcat 5 10 20 4 texts ≡ some (2 + 1, m'))
    × (1 < 4 → Wrote 10 (10 + 1) 20 (min 2 (4 - 1 - 1)) 4 texts m')
    × (4 ≤ 1 → m' ≡ texts)
strlcat_lem_example =
    strlcat_lem 5 10 20 4 2 1 texts two one (omega arith) (omega arith) (inl (omega arith))
