-- ===== src/Random/Permutation.antt =====
-- The array of the generator as a permutation of the bytes.
use projectmod.Base.{
  ℕ, zero, suc, ◌+◌, ◌≤◌, ◌<◌, ◌≡◌, refl, Bool, true, false, List, [], ◌∷◌, arith, length,
  if◌then◌else◌, ap,
}
use projectmod.Random.{
  State, byte, swap_byte, seed_byte, init_loop, random_init, next_byte, bytes_loop, random_bytes,
}

-- Each index below 256 has another byte.
pub record IsPermutation (s : ℕ → ℕ) : Type 0 where
  pub bytes : (k : ℕ) → k < 256 → s k < 256
  pub distinct : (k l : ℕ) → k < 256 → l < 256 → s k ≡ s l → k ≡ l

swap_byte-IsPermutation :
    (a b : ℕ) {s : ℕ → ℕ} → a < 256 → b < 256 → IsPermutation s → IsPermutation (swap_byte s a b)
swap_byte-IsPermutation a b {s} p q perm = record {
  bytes = λ k h. ground (arith, perm.bytes k h, perm.bytes a p, perm.bytes b q);
  distinct = λ k l h h' e. ground (
    arith,
    perm.distinct k l h h',
    perm.distinct a l p h',
    perm.distinct b l q h',
    perm.distinct k a h p,
    perm.distinct k b h q,
    perm.distinct a b p q,
    e,
  );
}

init_loop-IsPermutation :
    (n i j seed : ℕ) (s : ℕ → ℕ)
    → n + i ≤ 256
    → IsPermutation s
    → IsPermutation (init_loop n i j seed s)
unfolding init_loop
init_loop-IsPermutation zero i j seed s h perm = perm
init_loop-IsPermutation (suc n) i j seed s h perm =
    let j' = byte (j + s i + seed_byte seed i) in
    init_loop-IsPermutation n (i + 1) j' seed (swap_byte s i j') (omega arith)
      (swap_byte-IsPermutation i j' (omega arith) (omega arith) perm)

pub random_init-IsPermutation : (seed : ℕ) → IsPermutation (random_init seed).s
unfolding random_init
random_init-IsPermutation seed =
    init_loop-IsPermutation 256 0 0 seed (λ i. byte i) (omega arith)
      (record { bytes = λ k h. omega arith; distinct = λ k l h h' e. omega (arith, e) })

next_byte-IsPermutation :
    (r : State) → IsPermutation r.s → IsPermutation (next_byte r).1.s × ((next_byte r).0 < 256)
unfolding next_byte
next_byte-IsPermutation r perm =
    let i = byte (r.s_i + 1) in
    let j = byte (r.s_j + r.s i) in
    let after = swap_byte-IsPermutation i j (omega arith) (omega arith) perm in
    (after, after.bytes (byte (swap_byte r.s i j i + swap_byte r.s i j j)) (omega arith))

abbrev pub AllBytes : List ℕ → Type 0
AllBytes [] = Unit
AllBytes (b ∷ l) = (b < 256) × AllBytes l

-- What a request of bytes gives: as many values as asked for, all bytes, and a permutation.
abbrev pub Gives : ℕ → List ℕ × State → Type 0
Gives size r = (length r.0 ≡ size) × AllBytes r.0 × IsPermutation r.1.s × (r.1.inited ≡ true)

bytes_loop_lem :
    (size : ℕ) (r : State) → IsPermutation r.s → r.inited ≡ true → Gives size (bytes_loop size r)
unfolding bytes_loop
bytes_loop_lem zero r perm on = (refl, tt, perm, on)
bytes_loop_lem (suc size) r perm on =
    let (perm', b_lt) = next_byte-IsPermutation r perm in
    let still : (next_byte r).1.inited ≡ true = unfold next_byte in on in
    let (len, all, perm'', on') = bytes_loop_lem size (next_byte r).1 perm' still in
    (ap suc len, (b_lt, all), perm'', on')

-- The generator once it is initialised
ready :
    (b : Bool) (r : State)
    → r.inited ≡ b
    → (b ≡ true → IsPermutation r.s)
    → IsPermutation (if b then r else random_init 0).s
      × ((if b then r else random_init 0).inited ≡ true)
ready true r e valid = (valid refl, e)
ready false r e valid = (random_init-IsPermutation 0, unfold random_init in refl)

-- `random_bytes`, on the generator before its first use or on one whose array is a permutation of the
-- bytes, gives as many values as asked for, all of them bytes, and leaves a generator that is
-- initialised and whose array is a permutation of the bytes.
pub random_bytes_lem :
    (size : ℕ) (r : State)
    → (r.inited ≡ true → IsPermutation r.s)
    → Gives size (random_bytes size r)
unfolding random_bytes
random_bytes_lem size r valid =
    let (perm, on) = ready r.inited r refl valid in
    bytes_loop_lem size (if r.inited then r else random_init 0) perm on
