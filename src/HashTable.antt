-- ===== src/HashTable.antt =====
-- lib/kernel/hash.c: a hash table of the addresses of its elements. The elements' hash values and
-- their order are parameters. A bucket is the list of its elements, from the front; an element is in
-- one bucket at most, so that list_remove needs no bucket.
pub mod Sums
pub mod Valid
pub mod Rehash
pub mod Steps
mod Calls
mod Tests
use projectmod.Base.{
  ℕ, zero, suc, ◌+◌, ◌-◌, ◌*◌, ◌/◌, ◌%◌, ◌^◌, Bool, true, false, not, ◌&&◌, Option, none, some,
  List, [], ◌∷◌, ◌++◌, bit_and, bit_xor, ◌==◌, ltb, if◌then◌else◌, ◌>>=◌,
}

-- `struct hash`, less the functions
pub record Hash : Type 0 where
  pub elem_cnt : ℕ
  pub bucket_cnt : ℕ
  pub buckets : ℕ → List ℕ

-- `hash_init`, with what `malloc` returns: whether it succeeds, and the table.
unfoldable pub hash_init : Bool → (ℕ → List ℕ) → Bool × Hash
hash_init got garbage =
    if got
    then (
      true,
      record { elem_cnt = 0; bucket_cnt = 4; buckets = λ i. if ltb i 4 then [] else garbage i },
    )
    else (false, record { elem_cnt = 0; bucket_cnt = 4; buckets = garbage })

-- The elements of `n` buckets from `i` on, in the order in which `hash_apply` calls its action, and
-- `hash_clear` its destructor.
unfoldable pub elements : ℕ → ℕ → (ℕ → List ℕ) → List ℕ
elements zero i buckets = []
elements (suc n) i buckets = buckets i ++ elements n (i + 1) buckets

unfoldable pub hash_apply : Hash → List ℕ
unfolding elements
hash_apply h = elements h.bucket_cnt 0 h.buckets

unfoldable pub hash_clear : Hash → List ℕ × Hash
unfolding elements
hash_clear h = (
  elements h.bucket_cnt 0 h.buckets,
  record h { elem_cnt = 0; buckets = λ i. if ltb i h.bucket_cnt then [] else h.buckets i },
)

-- FNV_32_PRIME, FNV_32_BASIS, and the loop of `hash_bytes` and `hash_string`
abbrev pub fnv_prime : ℕ
fnv_prime = 16777619

abbrev pub fnv_basis : ℕ
fnv_basis = 2166136261

unfoldable pub hash_loop : List ℕ → ℕ → ℕ
hash_loop [] hash = hash
hash_loop (b ∷ buf) hash = hash_loop buf (bit_xor ((hash * fnv_prime) % 2 ^ 32) b)

unfoldable pub hash_bytes : List ℕ → ℕ
unfolding hash_loop
hash_bytes buf = hash_loop buf fnv_basis

unfoldable pub hash_int : ℕ → ℕ
unfolding hash_bytes
hash_int i = hash_bytes (i % 256 ∷ i / 256 % 256 ∷ i / 65536 % 256 ∷ i / 16777216 % 256 ∷ [])

unfoldable pub turn_off_least_1bit : ℕ → ℕ
turn_off_least_1bit x = bit_and x (x - 1)

unfoldable pub is_power_of_2 : ℕ → Bool
unfolding turn_off_least_1bit
is_power_of_2 x = not (x == 0) && (turn_off_least_1bit x == 0)

-- The while loop of `rehash`, with fuel
unfoldable pub power_loop : ℕ → ℕ → Option ℕ
unfolding is_power_of_2
power_loop zero x = none
power_loop (suc n) x = elim (is_power_of_2 x) [
  | true ↦ some x
  | false ↦ power_loop n (turn_off_least_1bit x)
]

-- The bucket count that `rehash` wants for a number of elements.
unfoldable pub new_bucket_cnt : ℕ → Option ℕ
unfolding power_loop
new_bucket_cnt elem_cnt =
    let wanted = if ltb (elem_cnt / 2) 4 then 4 else elem_cnt / 2 in power_loop (suc wanted) wanted

-- list_remove
unfoldable pub list_remove : ℕ → List ℕ → List ℕ
list_remove e [] = []
list_remove e (x ∷ l) = let rest = list_remove e l in if x == e then l else x ∷ rest

unfoldable pub remove_elem : Hash → ℕ → Hash
unfolding list_remove
remove_elem h e = record h {
  elem_cnt = (h.elem_cnt + 2 ^ 32 - 1) % 2 ^ 32;
  buckets = λ i. list_remove e (h.buckets i);
}

-- list_push_front into bucket `i`
unfoldable pub push_front : Hash → ℕ → ℕ → Hash
push_front h i e = record h { buckets = λ j. if j == i then e ∷ h.buckets i else h.buckets j }

unfoldable pub insert_elem : Hash → ℕ → ℕ → Hash
unfolding push_front
insert_elem h i e = push_front (record h { elem_cnt = (h.elem_cnt + 1) % 2 ^ 32 }) i e

module _ (hash : ℕ → ℕ) where
  unfoldable pub find_bucket : Hash → ℕ → ℕ
  find_bucket h e = bit_and (hash e) (h.bucket_cnt - 1)

  -- The loops of `rehash` that move the elements of a bucket, and of `n` buckets from `i` on.
  unfoldable pub move_bucket : List ℕ → Hash → Hash
  unfolding find_bucket push_front
  move_bucket [] h = h
  move_bucket (e ∷ l) h = move_bucket l (push_front h (find_bucket h e) e)

  unfoldable pub move_buckets : ℕ → ℕ → (ℕ → List ℕ) → Hash → Hash
  unfolding move_bucket
  move_buckets zero i old h = h
  move_buckets (suc n) i old h = move_buckets n (i + 1) old (move_bucket (old i) h)

  -- `rehash`; `got` is whether `malloc` returns.
  unfoldable pub rehash : Bool → Hash → Option Hash
  unfolding new_bucket_cnt move_buckets
  rehash got h = new_bucket_cnt h.elem_cnt >>= λ cnt.
      if (cnt == h.bucket_cnt)
      then some h
      else if got
      then some (
          move_buckets h.bucket_cnt 0 h.buckets
            (record { elem_cnt = h.elem_cnt; bucket_cnt = cnt; buckets = λ i. [] }))
      else some h

  module _ (less : ℕ → ℕ → Bool) where
    -- Neither is less.
    abbrev pub equals : ℕ → ℕ → Bool
    equals a b = not (less a b) && not (less b a)

    unfoldable pub find_elem : List ℕ → ℕ → Option ℕ
    find_elem [] e = none
    find_elem (x ∷ l) e = let rest = find_elem l e in if equals x e then some x else rest

    unfoldable pub hash_find : Hash → ℕ → Option ℕ
    unfolding find_elem find_bucket
    hash_find h e = find_elem (h.buckets (find_bucket h e)) e

    -- The element found, and the table
    unfoldable pub hash_insert : Bool → ℕ → Hash → Option (Option ℕ × Hash)
    unfolding find_elem find_bucket insert_elem rehash
    hash_insert got e h =
        let bucket = find_bucket h e in
        let old = find_elem (h.buckets bucket) e in
        let h' : Hash = elim old [ none ↦ insert_elem h bucket e | some x ↦ h ] in
        rehash got h' >>= λ h''. some (old, h'')

    unfoldable pub hash_replace : Bool → ℕ → Hash → Option (Option ℕ × Hash)
    unfolding find_elem find_bucket insert_elem remove_elem rehash
    hash_replace got e h =
        let bucket = find_bucket h e in
        let old = find_elem (h.buckets bucket) e in
        let h' : Hash = elim old [ none ↦ h | some x ↦ remove_elem h x ] in
        rehash got (insert_elem h' bucket e) >>= λ h''. some (old, h'')

    unfoldable pub hash_delete : Bool → ℕ → Hash → Option (Option ℕ × Hash)
    unfolding hash_find remove_elem rehash
    hash_delete got e h = elim (hash_find h e) [
      | none ↦ some (none, h)
      | some x ↦ rehash got (remove_elem h x) >>= λ h'. some (some x, h')
    ]
