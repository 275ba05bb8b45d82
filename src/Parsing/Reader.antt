-- ===== src/Parsing/Reader.antt =====
-- Reads of a packet's bytes, and what the programs print.
use Prim.Native.String.{String}
use dpdk_folder.Prelude.{
  ℕ, zero, suc, ◌+◌, ◌*◌, ◌%◌, ◌≤◌, ◌<◌, shr, Option, none, some, Bool, true, false, List, [], ◌∷◌,
  ◌++◌, length, get_elem?, ◌≡◌, refl, ap, arith,
}

-- One `printf`: its label, and the values that it shows.
pub data Line : Type 0 where
  banner : String → Line
  number : String → ℕ → Line
  mac : String → List ℕ → Line
  ip : String → List ℕ → Line
  -- a character buffer; `none` is one that was never written
  text : String → Option String → Line

infixl 5 ◌>>=◌
abbrev pub ◌>>=◌ : {A B : Type 0} → Option A → (A → Option B) → Option B
none >>= f = none
some a >>= f = f a

abbrev pub byte : List ℕ → ℕ → Option ℕ
byte pkt i = get_elem? pkt i

-- `n` bytes from offset `i`
abbrev pub slice : List ℕ → ℕ → ℕ → Option (List ℕ)
slice pkt i zero = some []
slice pkt i (suc n) = do b ← byte pkt i; bs ← slice pkt (i + 1) n; some (b ∷ bs)

abbrev pub join_be16 : ℕ → ℕ → ℕ
join_be16 a b = a * 256 + b

abbrev pub join_be32 : ℕ → ℕ → ℕ → ℕ → ℕ
join_be32 a b c e = ((a * 256 + b) * 256 + c) * 256 + e

-- `rte_be_to_cpu_16` of the field at offset `i`: network order
abbrev pub be16 : List ℕ → ℕ → Option ℕ
be16 pkt i = do a ← byte pkt i; b ← byte pkt (i + 1); some (join_be16 a b)

-- `rte_be_to_cpu_32` of the field at offset `i`
abbrev pub be32 : List ℕ → ℕ → Option ℕ
be32 pkt i = do
  a ← byte pkt i
  b ← byte pkt (i + 1)
  c ← byte pkt (i + 2)
  e ← byte pkt (i + 3)
  some (join_be32 a b c e)

-- The field itself, as the little-endian machine loads it.
abbrev pub le32 : List ℕ → ℕ → Option ℕ
le32 pkt i = do
  a ← byte pkt i
  b ← byte pkt (i + 1)
  c ← byte pkt (i + 2)
  e ← byte pkt (i + 3)
  some (join_be32 e c b a)

-- `(x >> 24) & 0xff, (x >> 16) & 0xff, (x >> 8) & 0xff, x & 0xff`
abbrev pub quad : ℕ → List ℕ
quad x = shr x 24 % 256 ∷ shr x 16 % 256 ∷ shr x 8 % 256 ∷ x % 256 ∷ []

pub quad-join_be32 :
    (a b c e : ℕ)
    → a < 256
    → b < 256
    → c < 256
    → e < 256
    → quad (join_be32 a b c e) ≡ a ∷ b ∷ c ∷ e ∷ []
quad-join_be32 a b c e ha hb hc he = ground arith

abbrev pub is_some : {A : Type 0} → Option A → Bool
is_some none = false
is_some (some _) = true

pub value_of_is_some : {A : Type 0} (o : Option A) → is_some o ≡ true → (a : A) × (o ≡ some a)
value_of_is_some none h = cc
value_of_is_some (some a) h = (a, refl)

-- Reads inside the frame succeed.
pub byte_in : (pkt : List ℕ) (i : ℕ) → i < length pkt → (b : ℕ) × (byte pkt i ≡ some b)
byte_in [] i h = absurd (omega arith)
byte_in (x ∷ xs) zero h = (x, refl)
byte_in (x ∷ xs) (suc i) h = byte_in xs i (omega arith)

pub be16_in : (pkt : List ℕ) (i : ℕ) → i + 1 < length pkt → (v : ℕ) × (be16 pkt i ≡ some v)
be16_in pkt i h =
    let (a, ea) = byte_in pkt i (omega arith) in
    let (b, eb) = byte_in pkt (i + 1) h in (join_be16 a b, rw (ea, eb))

pub be32_in : (pkt : List ℕ) (i : ℕ) → i + 3 < length pkt → (v : ℕ) × (be32 pkt i ≡ some v)
be32_in pkt i h =
    let (a, ea) = byte_in pkt i (omega arith) in
    let (b, eb) = byte_in pkt (i + 1) (omega arith) in
    let (c, ec) = byte_in pkt (i + 2) (omega arith) in
    let (e, ee) = byte_in pkt (i + 3) h in (join_be32 a b c e, rw (ea, eb, ec, ee))

pub le32_in : (pkt : List ℕ) (i : ℕ) → i + 3 < length pkt → (v : ℕ) × (le32 pkt i ≡ some v)
le32_in pkt i h =
    let (a, ea) = byte_in pkt i (omega arith) in
    let (b, eb) = byte_in pkt (i + 1) (omega arith) in
    let (c, ec) = byte_in pkt (i + 2) (omega arith) in
    let (e, ee) = byte_in pkt (i + 3) h in (join_be32 e c b a, rw (ea, eb, ec, ee))

pub slice_in :
    (pkt : List ℕ) (i n : ℕ) → i + n ≤ length pkt → (v : List ℕ) × (slice pkt i n ≡ some v)
slice_in pkt i zero h = ([], refl)
slice_in pkt i (suc n) h =
    let (b, eb) = byte_in pkt i (omega arith) in
    let (bs, ebs) = slice_in pkt (i + 1) n (omega arith) in (b ∷ bs, rw (eb, ebs))

-- Reads outside it fail.
pub byte_out : (pkt : List ℕ) (i : ℕ) → length pkt ≤ i → byte pkt i ≡ none
byte_out [] i h = refl
byte_out (x ∷ xs) zero h = absurd (omega arith)
byte_out (x ∷ xs) (suc i) h = byte_out xs i (omega arith)

-- Reads behind a prefix are reads of the rest.
pub byte-append : (xs ys : List ℕ) (i : ℕ) → byte (xs ++ ys) (length xs + i) ≡ byte ys i
byte-append [] ys i = ap (byte ys) (omega arith)
byte-append (x ∷ xs) ys i =
    let e : suc (length xs) + i ≡ suc (length xs + i) = omega arith in rw e (byte-append xs ys i)

-- The same for a field, at whatever form of its offset.
pub byte_behind : (xs ys : List ℕ) (o i : ℕ) → o ≡ length xs + i → byte (xs ++ ys) o ≡ byte ys i
byte_behind xs ys o i e = rw e (byte-append xs ys i)
