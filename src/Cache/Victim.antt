-- ===== src/Cache/Victim.antt =====
-- The loop of `bc_get_free_entry`, visit by visit.
use projectmod.Base.{
  ℕ, zero, suc, ◌+◌, ◌*◌, ◌≤◌, ◌<◌, ◌≡◌, refl, inl, inr, Bool, true, false, ◌||◌, some, arith, ◌==◌,
  ◌∙◌, eq→==, ne→==, if◌then◌else◌, Bool-cases,
}
use native.Mathlib.Decide.{ℕ_discrete, dec_lt}
use projectmod.Cache.{Entry, empty_sector, set_entry, taken, halts, visit, victim_loop}

-- An entry that the next visit with its lock takes, if no one reads it.
abbrev pub is_ready : Entry → Bool
is_ready e = (e.sector == empty_sector) || e.is_in_second_chance

-- Only second chances were given.
pub record Kept (e e' : Entry) : Type 0 where
  pub sector : e'.sector ≡ e.sector
  pub contents : e'.contents ≡ e.contents
  pub is_dirty : e'.is_dirty ≡ e.is_dirty
  pub readers : e'.readers ≡ e.readers
  pub chance : e.is_in_second_chance ≡ true → e'.is_in_second_chance ≡ true

abbrev pub AllKept : (ℕ → Entry) → (ℕ → Entry) → Type 0
AllKept f g = (j : ℕ) → Kept (f j) (g j)

-- What a search for a victim returns.
pub record Victim (f : ℕ → Entry) (i : ℕ) (g : ℕ → Entry) : Type 0 where
  pub inside : i < 64
  pub unread : (g i).readers ≡ 0
  pub kept : AllKept f g

Kept-refl : (e : Entry) → Kept e e
Kept-refl e = record {
  sector = refl;
  contents = refl;
  is_dirty = refl;
  readers = refl;
  chance = λ h. h;
}

Kept-trans : {a b c : Entry} → Kept a b → Kept b c → Kept a c
Kept-trans k l = record {
  sector = l.sector ∙ k.sector;
  contents = l.contents ∙ k.contents;
  is_dirty = l.is_dirty ∙ k.is_dirty;
  readers = l.readers ∙ k.readers;
  chance = λ h. l.chance (k.chance h);
}

-- The visit of an entry, whether or not its lock is free.
abbrev visited : (ℕ → ℕ → Bool) → ℕ → ℕ → Entry → Bool × Entry
visited busy round i e = if taken busy round i then visit round e else (false, e)

visited-Kept : (busy : ℕ → ℕ → Bool) (round i : ℕ) (e : Entry) → Kept e (visited busy round i e).1
unfolding visit
visited-Kept busy round i e = record {
  sector = ground arith;
  contents = ground arith;
  is_dirty = ground arith;
  readers = ground arith;
  chance = λ h. ground (arith, h);
}

visited_unread :
    (busy : ℕ → ℕ → Bool) (round i : ℕ) (e : Entry)
    → (visited busy round i e).0 ≡ true
    → e.readers ≡ 0
unfolding visit
visited_unread busy round i e h = ground (arith, h)

-- From round 1 on an entry without readers, whose lock is free, is ready after a visit, and a ready one
-- is the victim.
visited_late :
    (busy : ℕ → ℕ → Bool) (round i : ℕ) (e : Entry)
    → 0 < round
    → busy round i ≡ false
    → e.readers ≡ 0
    → ((visited busy round i e).0 ≡ false → is_ready (visited busy round i e).1 ≡ true)
      × (is_ready e ≡ true → (visited busy round i e).0 ≡ true)
unfolding visit
visited_late busy round i e h free unread =
    (λ p. ground (arith, h, free, unread, p), λ p. ground (arith, h, free, unread, p))

is_ready-Kept : {e e' : Entry} → Kept e e' → is_ready e ≡ true → is_ready e' ≡ true
is_ready-Kept k h = ground (arith, k.sector, k.chance, h)

step-AllKept :
    (busy : ℕ → ℕ → Bool) (round i : ℕ) (f : ℕ → Entry)
    → AllKept f (set_entry f i (visited busy round i (f i)).1)
step-AllKept busy round i f j = elim (ℕ_discrete j i) [
  | yes e ↦ rw (e, eq→== i i refl) (visited-Kept busy round i (f i))
  | no ne ↦ rw (ne→== j i ne) (Kept-refl (f j))
]

module _ (busy : ℕ → ℕ → Bool) (k round i : ℕ) (f : ℕ → Entry) (h : i < 64) (k_lt : k < 64)
    (unread : (f k).readers ≡ 0) (free : (r : ℕ) → busy r k ≡ false) where
  -- In round 2 entry `k` is not passed.
  last_visit :
      round * 64 + i ≡ 2 * 64 + k
      → is_ready (f k) ≡ true
      → (visited busy round i (f i)).0 ≡ false
      → ⊥
  last_visit at ready passed =
      let here : i ≡ k = omega arith in
      let found = (visited_late busy round k (f k) (omega arith) (free round) unread).1 ready in
      let passed' = rw here at passed in cc

  -- After its visit in round 1 it is ready, and stays so.
  ready_again :
      1 * 64 + k < round * 64 + i + 1
      → (visited busy round i (f i)).0 ≡ false
      → (1 * 64 + k < round * 64 + i → is_ready (f k) ≡ true)
      → is_ready (set_entry f i (visited busy round i (f i)).1 k) ≡ true
  ready_again p passed ready = elim (dec_lt (1 * 64 + k) (round * 64 + i)) [
    | yes before ↦ is_ready-Kept (step-AllKept busy round i f k) (ready before)
    | no now ↦
        let here : k ≡ i = omega arith in
        rw (here, eq→== i i refl)
          ((visited_late busy round i (f i) (omega arith) (rw here at free round)
              (rw here at unread)).0
            passed)
  ]

-- The loop returns if entry `k` has no readers and its lock is free. It has `n` visits left of those in
-- eight rounds.
module _ (busy : ℕ → ℕ → Bool) (k : ℕ) (k_lt : k < 64) (free : (r : ℕ) → busy r k ≡ false) where
  pub victim_loop_lem :
      (n round i : ℕ) (f : ℕ → Entry)
      → i < 64
      → (f k).readers ≡ 0
      → n + (round * 64 + i) ≡ 512
      → round * 64 + i ≤ 2 * 64 + k
      → (1 * 64 + k < round * 64 + i → is_ready (f k) ≡ true)
      → (v : ℕ) × (g : ℕ → Entry) × (victim_loop n busy round i f ≡ some (v, g)) × Victim f v g
  unfolding victim_loop
  victim_loop_lem zero round i f h unread fuel pos ready = absurd (omega arith)
  victim_loop_lem (suc n) round i f h unread fuel pos ready =
      let v = visited busy round i (f i) in
      let g = set_entry f i v.1 in
      let kept = step-AllKept busy round i f in
      let last = i == 63 in
      let goes : halts busy round i ≡ false = ground arith in
      elim (Bool-cases v.0) [
        | inl found ↦
            rw (goes, found, victim_loop)
              (
                i,
                f,
                refl,
                record {
                  inside = h;
                  unread = visited_unread busy round i (f i) found;
                  kept = λ j. Kept-refl (f j);
                },
              )
        | inr passed ↦
            let late : round * 64 + i ≡ 2 * 64 + k → ⊥ = λ at.
              last_visit busy k round i f h k_lt unread free at (ready (omega arith)) passed in
            let next : (if last then round + 1 else round) * 64 + (if last then 0 else i + 1)
                ≡ round * 64 + i + 1 =
              ground arith in
            let (w, g', ok, found) =
              victim_loop_lem n (if last then round + 1 else round) (if last then 0 else i + 1) g
                (ground arith) ((kept k).readers ∙ unread) (omega (arith, next))
                (ground (arith, next, late))
                (λ p.
                  ready_again busy k round i f h k_lt unread free (omega (arith, next)) passed
                    ready) in
            rw (goes, passed, victim_loop)
              (
                w,
                g',
                ok,
                record {
                  inside = found.inside;
                  unread = found.unread;
                  kept = λ j. Kept-trans (kept j) (found.kept j);
                },
              )
      ]
