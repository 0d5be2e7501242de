-- ===== src/Palloc/Fill.antt =====
-- What `memset` writes.
use projectmod.Base.{
  ℕ, zero, suc, ◌+◌, ◌≤◌, ◌^◌, ◌≡◌, Bool, ◌∙◌, ◌&&◌, arith, ◌==◌, leb, ltb, if◌then◌else◌,
}
use projectmod.Palloc.{memset, address}

-- An address is one of `size` from `dst` on.
abbrev pub in_block : ℕ → ℕ → ℕ → Bool
in_block dst size a = leb dst a && ltb a (dst + size)

pub memset_lem :
    (size dst value : ℕ) (memory : ℕ → ℕ) (a : ℕ)
    → dst + size ≤ 2 ^ 32
    → memset size dst value memory a ≡ (if in_block dst size a then value else memory a)
unfolding memset
memset_lem zero dst value memory a h = ground arith
memset_lem (suc zero) dst value memory a h = ground arith
memset_lem (suc (suc n)) dst value memory a h =
    let next : address (dst + 1) ≡ dst + 1 = omega arith in
    let rest =
      memset_lem (suc n) (dst + 1) value (λ b. if b == dst then value else memory b) a
        (omega arith) in
    rw next (rest ∙ ground arith)
