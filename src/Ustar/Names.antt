-- ===== src/Ustar/Names.antt =====
-- `strip_antisocial_prefixes`.
use projectmod.Base.{
  ℕ, zero, suc, ◌≤◌, ◌<◌, ◌≡◌, refl, ◌≢◌, ◌⊎◌, inl, inr, true, false, List, [], ◌∷◌, ◌++◌, arith,
  ◌==◌, Bool-cases, length, ap, ◌∙◌,
}
use mathlib.Core.List.{append_assoc}
use projectmod.Printf.Text.{codes}
use projectmod.Ustar.{
  after_slash, is_antisocial, is_parent, or_here, strip_loop, strip_antisocial_prefixes,
}

-- A name that an archive may hold, by the tests of the code.
pub record IsSafe (s : List ℕ) : Type 0 where
  pub prefix : is_antisocial s ≡ false
  pub parent : is_parent s ≡ false
  pub some_name : 0 < length s

length-after_slash : (c : ℕ) (s : List ℕ) → length (after_slash (c ∷ s)) ≤ length s
unfolding after_slash
length-after_slash c [] = ground arith
length-after_slash c (d ∷ s) = ground (arith, length-after_slash d s)

strip_loop_lem : (f : ℕ) (s : List ℕ) → length s ≤ f → is_antisocial (strip_loop f s) ≡ false
unfolding strip_loop
strip_loop_lem zero [] h = refl
strip_loop_lem zero (c ∷ s) h = absurd (omega arith)
strip_loop_lem (suc f) [] h = refl
strip_loop_lem (suc f) (c ∷ s) h = elim (Bool-cases (is_antisocial (c ∷ s))) [
  | inl e ↦
      rw (e, strip_loop)
        (strip_loop_lem f (after_slash (c ∷ s)) (omega (arith, length-after_slash c s)))
  | inr e ↦ rw (e, strip_loop) e
]

-- What stands behind a slash is the end of the name.
after_slash_suffix : (s : List ℕ) → (p : List ℕ) × (p ++ after_slash s ≡ s)
unfolding after_slash
after_slash_suffix [] = ([], refl)
after_slash_suffix (c ∷ s) = elim (Bool-cases (c == b'/')) [
  | inl e ↦ (c ∷ [], rw e refl)
  | inr e ↦ let (p, q) = after_slash_suffix s in (c ∷ p, rw e (ap (◌∷◌ c) q))
]

strip_loop_suffix : (f : ℕ) (s : List ℕ) → (p : List ℕ) × (p ++ strip_loop f s ≡ s)
unfolding strip_loop
strip_loop_suffix zero s = ([], refl)
strip_loop_suffix (suc f) s = elim (Bool-cases (is_antisocial s)) [
  | inl e ↦
      let (p, q) = strip_loop_suffix f (after_slash s) in
      let (p', q') = after_slash_suffix s in
      (
        p' ++ p,
        rw (e, strip_loop) (append_assoc p' p (strip_loop f (after_slash s)) ∙ ap (◌++◌ p') q ∙ q'),
      )
  | inr e ↦ ([], rw (e, strip_loop) refl)
]

or_here-IsSafe : (s : List ℕ) → is_antisocial s ≡ false → IsSafe (or_here s)
unfolding or_here is_antisocial
or_here-IsSafe [] h = record { prefix = refl; parent = refl; some_name = omega arith }
or_here-IsSafe (c ∷ s) h = elim (Bool-cases (is_parent (c ∷ s))) [
  | inl e ↦ rw e (record { prefix = refl; parent = refl; some_name = omega arith })
  | inr e ↦ rw e (record { prefix = h; parent = e; some_name = omega arith })
]

pub strip_antisocial_prefixes-IsSafe : (s : List ℕ) → IsSafe (strip_antisocial_prefixes s)
unfolding strip_antisocial_prefixes
strip_antisocial_prefixes-IsSafe s =
    or_here-IsSafe (strip_loop (length s) s) (strip_loop_lem (length s) s (omega arith))

-- A name that does not lead out of a directory: it does not begin with `/`, `./` or `../`, and is neither
-- empty nor `..`.
pub record IsInside (s : List ℕ) : Type 0 where
  pub root : (t : List ℕ) → s ≢ codes "/" ++ t
  pub here : (t : List ℕ) → s ≢ codes "./" ++ t
  pub above : (t : List ℕ) → s ≢ codes "../" ++ t
  pub parent : s ≢ codes ".."
  pub some_name : s ≢ []

is_antisocial_root : (t : List ℕ) → is_antisocial (codes "/" ++ t) ≡ true
unfolding is_antisocial
is_antisocial_root [] = refl
is_antisocial_root (a ∷ []) = refl
is_antisocial_root (a ∷ b ∷ t) = refl

is_antisocial_here : (t : List ℕ) → is_antisocial (codes "./" ++ t) ≡ true
unfolding is_antisocial
is_antisocial_here [] = refl
is_antisocial_here (a ∷ t) = refl

IsSafe-IsInside : {s : List ℕ} → IsSafe s → IsInside s
unfolding is_antisocial is_parent
IsSafe-IsInside {s} safe = record {
  root = λ t e. let bad = ap is_antisocial e ∙ is_antisocial_root t in let good = safe.prefix in cc;
  here = λ t e. let bad = ap is_antisocial e ∙ is_antisocial_here t in let good = safe.prefix in cc;
  above =
      λ t e. let bad : is_antisocial s ≡ true = ap is_antisocial e in let good = safe.prefix in cc;
  parent = λ e. let bad : is_parent s ≡ true = ap is_parent e in let good = safe.parent in cc;
  some_name = λ e. let none_there : length s ≡ 0 = ap length e in omega (arith, safe.some_name);
}

-- The name without its prefixes does not begin with `/`, `./` or `../`, is neither empty nor `..`, and
-- is `.` or the end of the name given.
pub strip_antisocial_prefixes_lem :
    (s : List ℕ)
    → IsInside (strip_antisocial_prefixes s)
      × ((strip_antisocial_prefixes s ≡ codes ".")
          ⊎ ((p : List ℕ) × (p ++ strip_antisocial_prefixes s ≡ s)))
unfolding strip_antisocial_prefixes
strip_antisocial_prefixes_lem s = (
  IsSafe-IsInside (strip_antisocial_prefixes-IsSafe s),
  kept (strip_loop (length s) s) s (strip_loop_suffix (length s) s),
)
  where
    kept :
        (t s : List ℕ)
        → (p : List ℕ) × (p ++ t ≡ s)
        → (or_here t ≡ codes ".") ⊎ ((p : List ℕ) × (p ++ or_here t ≡ s))
    kept [] s h = inl refl
    kept (c ∷ t) s h = elim (Bool-cases (is_parent (c ∷ t))) [
      | inl e ↦ inl (rw e refl)
      | inr e ↦ inr (h.0, rw e h.1)
    ]

-- A safe name stays as it is.
pub strip_antisocial_prefixes_self : (s : List ℕ) → IsSafe s → strip_antisocial_prefixes s ≡ s
unfolding strip_antisocial_prefixes
strip_antisocial_prefixes_self [] h = absurd (omega (arith, h.some_name))
strip_antisocial_prefixes_self (c ∷ s) h = rw (h.prefix, strip_loop) (rw h.parent refl)
