-- ===== src/Random.antt =====
-- lib/random.c: the RC4 generator. Its state is an array of 256 bytes and two indices, each a byte that
-- wraps.
mod Permutation
mod Tests
use projectmod.Base.{
  ℕ, zero, suc, ◌+◌, ◌*◌, ◌/◌, ◌%◌, ◌^◌, Bool, true, List, [], ◌∷◌, ◌==◌, if◌then◌else◌, get_or,
}

-- A value stored in a byte
abbrev pub byte : ℕ → ℕ
byte n = n % 256

-- `s`, `s_i`, `s_j` and `inited`
pub record State : Type 0 where
  pub s : ℕ → ℕ
  pub s_i : ℕ
  pub s_j : ℕ
  pub inited : Bool

abbrev pub swap_byte : (ℕ → ℕ) → ℕ → ℕ → ℕ → ℕ
swap_byte s a b k = if k == a then s b else (if k == b then s a else s k)

-- The bytes of an `unsigned`
abbrev pub seed_byte : ℕ → ℕ → ℕ
seed_byte seed i = seed / 256 ^ (i % 4) % 256

-- The second loop of `random_init`, from `i` on, `n` rounds
unfoldable pub init_loop : ℕ → (i j : ℕ) → (seed : ℕ) → (ℕ → ℕ) → ℕ → ℕ
init_loop zero i j seed s = s
init_loop (suc n) i j seed s =
    let j' = byte (j + s i + seed_byte seed i) in init_loop n (i + 1) j' seed (swap_byte s i j')

unfoldable pub random_init : ℕ → State
unfolding init_loop
random_init seed = record {
  s = init_loop 256 0 0 seed (λ i. byte i);
  s_i = 0;
  s_j = 0;
  inited = true;
}

-- A round of `random_bytes`: the byte, and the state.
unfoldable pub next_byte : State → ℕ × State
next_byte r =
    let i = byte (r.s_i + 1) in
    let j = byte (r.s_j + r.s i) in
    let s = swap_byte r.s i j in (s (byte (s i + s j)), record r { s = s; s_i = i; s_j = j })

-- Its loop
unfoldable pub bytes_loop : ℕ → State → List ℕ × State
unfolding next_byte
bytes_loop zero r = ([], r)
bytes_loop (suc size) r =
    let (b, r') = next_byte r in let (rest, r'') = bytes_loop size r' in (b ∷ rest, r'')

unfoldable pub random_bytes : ℕ → State → List ℕ × State
unfolding random_init bytes_loop
random_bytes size r = bytes_loop size (if r.inited then r else random_init 0)

unfoldable pub random_ulong : State → ℕ × State
unfolding random_bytes
random_ulong r =
    let (bytes, r') = random_bytes 4 r in
    (
      get_or bytes 0 0
          + 256 * get_or bytes 1 0
          + 65536 * get_or bytes 2 0
          + 16777216 * get_or bytes 3 0,
      r',
    )
