-- ===== src/Ustar/Fields.antt =====
-- What `ustar_make_header` writes into the fields around the size and the checksum.
use projectmod.Base.{
  ℕ, suc, ◌+◌, ◌-◌, ◌^◌, ◌≤◌, ◌<◌, ◌≡◌, refl, ◌⊎◌, inl, inr, true, some, List, [], ◌∷◌, arith, ◌==◌,
  ltb, if◌then◌else◌, length, get_or, take, ap, ◌∙◌, eq→==,
}
use native.Mathlib.Decide.{ℕ_discrete, dec_lt}
use projectmod.Strings.{Memory, store}
use projectmod.Palloc.{memset}
use projectmod.Palloc.Fill.{in_block, memset_lem}
use projectmod.Printf.Text.{codes}
use projectmod.Ustar.Field
use projectmod.Ustar.{ustar_regular, write_bytes, put_string, fill_front, fill_back}
use projectmod.Ustar.Parse.{has_bytes}
use projectmod.Ustar.Numbers.{put_number-PutsNumber, prints_seven}

write_bytes_lem :
    (s : List ℕ) (dst : ℕ) (m : Memory) (a : ℕ)
    → write_bytes dst s m a ≡ (if in_block dst (length s) a then get_or s (a - dst) 0 else m a)
unfolding write_bytes
write_bytes_lem [] dst m a = ground arith
write_bytes_lem (c ∷ s) dst m a = write_bytes_lem s (dst + 1) (store dst c m) a ∙ first c s dst m a
  where
    first :
        (c : ℕ) (s : List ℕ) (dst : ℕ) (m : Memory) (a : ℕ)
        → (if in_block (dst + 1) (length s) a then get_or s (a - (dst + 1)) 0 else store dst c m a)
          ≡ (if in_block dst (suc (length s)) a then get_or (c ∷ s) (a - dst) 0 else m a)
    first c s dst m a = elim (dec_lt dst a) [
      | yes h ↦ let e : a - dst ≡ suc (a - (dst + 1)) = omega arith in rw e (ground (arith, h))
      | no h ↦ let z : a - dst ≡ 0 = omega arith in rw z (ground (arith, h))
    ]

take_all : (s : List ℕ) → take (length s) s ≡ s
take_all [] = refl
take_all (c ∷ s) = ap (◌∷◌ c) (take_all s)

-- A string with its null in a field of `size` bytes; the rest of the field is as before.
record Puts (dst size : ℕ) (s : List ℕ) (m m' : Memory) : Type 0 where
  chars : (j : ℕ) → j < length s → m' (dst + j) ≡ get_or s j 0
  ends : m' (dst + length s) ≡ 0
  behind : (a : ℕ) → dst + length s < a → m' a ≡ m a
  before : (a : ℕ) → a < dst → m' a ≡ m a

put_string-Puts :
    (dst size : ℕ) (s : List ℕ) (m : Memory)
    → length s < size
    → Puts dst size s m (put_string dst size s m)
unfolding put_string
put_string-Puts dst size s m h =
    let w = write_bytes_lem s dst m in
    let len : (if ltb (length s) (size - 1) then length s else size - 1) ≡ length s =
      ground (arith, h) in
    rw (len, take_all s)
      (record {
        chars = λ j q.
            let back : dst + j - dst ≡ j = omega arith in
            let there = rw back at (w (dst + j)) in ground (arith, there, q);
        ends = ground arith;
        behind = λ a q. ground (arith, w a, q);
        before = λ a q. ground (arith, w a, q);
      })

pub has_bytes_lem :
    (s : List ℕ) (p : ℕ) (m : Memory)
    → ((j : ℕ) → j < length s → m (p + j) ≡ get_or s j 0)
    → has_bytes p s m ≡ true
unfolding has_bytes
has_bytes_lem [] p m same = refl
has_bytes_lem (c ∷ s) p m same =
    let e : p + 0 ≡ p = omega arith in
    let here : m p ≡ c = rw e at (same 0 (omega arith)) in
    let rest = has_bytes_lem s (p + 1) m (λ j q.
      let next : p + suc j ≡ p + 1 + j = omega arith in rw next at (same (suc j) (omega arith))) in
    rw (eq→== (m p) c here, rest) refl

-- The fields behind the number of the modification time but the checksum.
pub record Back (h type : ℕ) (m m' : Memory) : Type 0 where
  pub type_field : m' (h + Field.typeflag) ≡ type
  pub magic : (j : ℕ) → j < 5 → m' (h + Field.magic + j) ≡ get_or (codes "ustar") j 0
  pub magic_end : m' (h + Field.magic + 5) ≡ 0
  pub version : m' (h + Field.version) ≡ b'0'
  pub version_end : m' (h + Field.version + 1) ≡ b'0'
  pub before : (a : ℕ) → a < h + Field.typeflag → m' a ≡ m a
  pub behind : (a : ℕ) → h + Field.prefix ≤ a → m' a ≡ m a

pub fill_back-Back : (h type : ℕ) (m : Memory) → Back h type m (fill_back h type m)
unfolding fill_back has_bytes
fill_back-Back h type m =
    let m1 = store (h + Field.typeflag) type m in
    let m2 = put_string (h + Field.magic) 6 (codes "ustar") m1 in
    let m3 = store (h + Field.version) b'0' (store (h + Field.version + 1) b'0' m2) in
    let m4 = put_string (h + Field.gname) 32 (codes "root") m3 in
    let magic = put_string-Puts (h + Field.magic) 6 (codes "ustar") m1 (omega arith) in
    let gname = put_string-Puts (h + Field.gname) 32 (codes "root") m3 (omega arith) in
    let uname = put_string-Puts (h + Field.uname) 32 (codes "root") m4 (omega arith) in
    let front : (a : ℕ) → a < h + Field.uname → fill_back h type m a ≡ m3 a =
      λ a p. uname.before a p ∙ gname.before a (omega arith) in
    let version : (a : ℕ) → a < h + Field.version → m3 a ≡ m2 a = λ a p. ground (arith, p) in
    record {
      type_field =
          front (h + Field.typeflag) (omega arith)
          ∙ version (h + Field.typeflag) (omega arith)
          ∙ magic.before (h + Field.typeflag) (omega arith)
          ∙ ground arith;
      magic = λ j p.
          front (h + Field.magic + j) (omega arith)
          ∙ version (h + Field.magic + j) (omega arith)
          ∙ magic.chars j p;
      magic_end =
          front (h + Field.magic + 5) (omega arith)
          ∙ version (h + Field.magic + 5) (omega arith)
          ∙ magic.ends;
      version = front (h + Field.version) (omega arith) ∙ ground arith;
      version_end = front (h + Field.version + 1) (omega arith) ∙ ground arith;
      before = λ a p.
          front a (omega arith)
          ∙ version a (omega arith)
          ∙ magic.before a (omega arith)
          ∙ ground (arith, p);
      behind = λ a p.
          uname.behind a (omega arith)
          ∙ gname.behind a (omega arith)
          ∙ ground (arith, p, magic.behind a (omega arith));
    }

-- The fields before the number of the size: the name with zeros behind it, and zeros up to the end of
-- the header. The rest of the memory is as before.
pub record Front (h : ℕ) (name : List ℕ) (m m' : Memory) : Type 0 where
  pub chars : (j : ℕ) → j < length name → m' (h + j) ≡ get_or name j 0
  pub padding : (j : ℕ) → length name ≤ j → j < 100 → m' (h + j) ≡ 0
  pub prefix : m' (h + Field.prefix) ≡ 0
  pub outside : (a : ℕ) → (a < h) ⊎ (h + 512 ≤ a) → m' a ≡ m a

pub fill_front-Front :
    (h : ℕ) (name : List ℕ) (type : ℕ) (m : Memory)
    → h + 512 ≤ 2 ^ 32
    → length name < 100
    → (m' : Memory) × (fill_front h name type m ≡ some m') × Front h name m m'
unfolding fill_front
fill_front-Front h name type m fits short =
    let m1 = memset 512 h 0 m in
    let m2 = put_string h 100 name m1 in
    let mode : ℕ = if type == ustar_regular then 420 else 493 in
    let small : mode < 8 ^ 7 = ground arith in
    let (m3, e, puts) =
      put_number-PutsNumber (h + Field.mode) 7 mode m2 (omega arith) (omega arith) small
        (omega arith) (codes "%07o") (prints_seven mode (omega arith)) in
    let zeros = memset_lem 512 h 0 m in
    let named = put_string-Puts h 100 name m1 short in
    let uid = put_string-Puts (h + Field.uid) 8 (codes "0000000") m3 (omega arith) in
    let m4 = put_string (h + Field.uid) 8 (codes "0000000") m3 in
    let gid = put_string-Puts (h + Field.gid) 8 (codes "0000000") m4 (omega arith) in
    let low : (a : ℕ)
        → a < h + Field.mode
        → put_string (h + Field.gid) 8 (codes "0000000") m4 a ≡ m2 a =
      λ a p. gid.before a (omega arith) ∙ uid.before a (omega arith) ∙ puts.outside a (inl p) in
    let high : (a : ℕ)
        → h + Field.size ≤ a
        → put_string (h + Field.gid) 8 (codes "0000000") m4 a ≡ m1 a =
      λ a p.
        gid.behind a (omega arith)
        ∙ uid.behind a (omega arith)
        ∙ puts.outside a (inr (omega arith))
        ∙ named.behind a (omega arith) in
    (
      put_string (h + Field.gid) 8 (codes "0000000") m4,
      rw e refl,
      record {
        chars = λ j p. low (h + j) (omega arith) ∙ named.chars j p;
        padding = λ j p q. low (h + j) (omega arith) ∙ elim (ℕ_discrete j (length name)) [
          | yes k ↦ rw k named.ends
          | no nk ↦
              named.behind (h + j) (omega (arith, nk)) ∙ zeros (h + j) fits ∙ ground (arith, q)
        ];
        prefix =
            high (h + Field.prefix) (omega arith) ∙ zeros (h + Field.prefix) fits ∙ ground arith;
        outside = λ a p. elim p [
          | inl below ↦
              low a (omega arith) ∙ named.before a below ∙ zeros a fits ∙ ground (arith, below)
          | inr above ↦ high a (omega arith) ∙ zeros a fits ∙ ground (arith, above)
        ];
      },
    )
