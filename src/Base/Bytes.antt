-- ===== src/Base/Bytes.antt =====
-- A file in memory as a stream of libbinio, on which the loaders can be run: it shows that the laws
-- which they rely on can hold.
use adplug.Base.Tests.{order_cases, ◌==◌, if◌then◌else◌, leb}
use adplug.Base.Lists.{length, get_elem?, lt-of_get_elem?}
use adplug.Base.Stream.{BinIo, IsLawful}
use Prim.Native.Nat.{ℕ, zero, suc, ◌+◌, ◌-◌, ◌*◌, ◌%◌, ◌^◌, ◌/◌, ◌≤◌, ◌<◌}
use mathlib.Core.Path.{◌≡◌, refl, sym, ap, ◌∙◌}
use mathlib.Core.Bool.{Bool, true, false}
use mathlib.Core.Option.{Option, none, some}
use mathlib.Core.List.{List, [], ◌∷◌, ◌++◌, map}
use mathlib.Core.Logic.{inl, inr}
use adplug.Base.Output.{int_bytes, Delivers, BinOut, IsFaithful}
use adplug.Base.Lists.{drop, drop-of_get_elem?, drop-of_le, get_elem?-of_lt, All, length-append}
use native.Mathlib.Omega.{arith}
use native.Mathlib.Nat.{pow-succ', one-le-pow, div-add-mod, mul_assoc, mod-lt, mod-eq_of_lt}
use native.Mathlib.Nat.{add-mul-mod_self_left}

-- The bytes, the position, and whether a read went past the end.
pub record File : Type 0 where
  pub bytes : List ℕ
  pub at : ℕ
  pub ended : Bool

-- Past the end a read gives 255.
abbrev byte_of : Option ℕ → File → ℕ × File
byte_of none s = (255, record s { ended = true })
byte_of (some b) s = (b % 256, record s { at = suc s.at })

abbrev read_byte : File → ℕ × File
read_byte s = byte_of (get_elem? s.bytes s.at) s

abbrev little_endian : ℕ → File → ℕ × File
little_endian zero s = (0, s)
little_endian (suc n) s =
    let (b, s1) = read_byte s in let (rest, s2) = little_endian n s1 in (b + 256 * rest, s2)

abbrev buffer : ℕ → File → List ℕ × File
buffer zero s = ([], s)
buffer (suc n) s = let (b, s1) = read_byte s in let (rest, s2) = buffer n s1 in (b ∷ rest, s2)

-- The text up to a null, an end of the file or `n` characters.
abbrev text_to : ℕ → File → List ℕ × File
text_to zero s = ([], s)
text_to (suc n) s =
    let (b, s1) = read_byte s in
    let (rest, s2) = text_to n s1 in if b == 0 then ([], s1) else (b ∷ rest, s2)

abbrev move : ℕ → File → File
move n s = record s { at = n; ended = false }

abbrev pub io : BinIo
io = record {
  Stream = File;
  read_int = little_endian;
  read_buffer = buffer;
  read_text = text_to;
  read_single = little_endian 4;
  read_string = λ s. text_to (length s.bytes - s.at) s;
  ignore = λ n s. move (s.at + n) s;
  seek = move;
  seek_back = λ n s. move (s.at - n) s;
  seek_on = λ n s. move (s.at + n) s;
  seek_end = λ s. move (length s.bytes) s;
  pos = λ s. s.at % 2 ^ 63;
  eof = λ s. s.ended;
  error = λ s. (s.ended, record s { ended = false });
  ateof = λ s. leb (length s.bytes) s.at;
  left = λ s. if s.ended then 0 else suc (length s.bytes - s.at);
}

byte_of-lt : (o : Option ℕ) (s : File) → (byte_of o s).0 < 256
byte_of-lt none s = omega arith
byte_of-lt (some b) s = omega arith

read_byte-lt : (s : File) → (read_byte s).0 < 256
read_byte-lt s = byte_of-lt (get_elem? s.bytes s.at) s

little_endian-lt : (n : ℕ) (s : File) → (little_endian n s).0 < 256 ^ n
little_endian-lt zero s = omega arith
little_endian-lt (suc n) s =
    rw (pow-succ' 256 n) (omega (arith, read_byte-lt s, little_endian-lt n (read_byte s).1))

length-buffer : (n : ℕ) (s : File) → length (buffer n s).0 ≡ n
length-buffer zero s = refl
length-buffer (suc n) s = ap suc (length-buffer n (read_byte s).1)

-- A read before the end moves on or notices the end.
left-byte_of :
    (s : File) (o : Option ℕ)
    → s.ended ≡ false
    → get_elem? s.bytes s.at ≡ o
    → io.left (byte_of o s).1 < io.left s
left-byte_of s none e at = rw e (omega arith)
left-byte_of s (some b) e at = rw e (omega (arith, lt-of_get_elem? s.bytes s.at b at))

left-read_byte : (s : File) → s.ended ≡ false → io.left (read_byte s).1 < io.left s
left-read_byte s e = left-byte_of s (get_elem? s.bytes s.at) e refl

bytes-byte_of : (o : Option ℕ) (s : File) → (byte_of o s).1.bytes ≡ s.bytes
bytes-byte_of none s = refl
bytes-byte_of (some b) s = refl

bytes-little_endian : (n : ℕ) (s : File) → (little_endian n s).1.bytes ≡ s.bytes
bytes-little_endian zero s = refl
bytes-little_endian (suc n) s =
    bytes-little_endian n (read_byte s).1 ∙ bytes-byte_of (get_elem? s.bytes s.at) s

pub io-IsLawful : IsLawful io
io-IsLawful = record {
  read_int-lt = little_endian-lt;
  length-read_buffer = length-buffer;
  pos-lt = λ s. omega arith;
  left-read_int = left-read_byte;
  end-read_int = λ n s. rw (bytes-little_endian n s);
  end-seek = λ n s. refl;
  end-seek_end = λ s. refl;
}

-- The bytes of the file from the position on.
abbrev pub ahead : File → List ℕ
ahead s = map (λ b. b % 256) (drop s.at s.bytes)

byte_of-ahead :
    (s : File) (o : Option ℕ) (b : ℕ) (rest : List ℕ)
    → get_elem? s.bytes s.at ≡ o
    → ahead s ≡ b ∷ rest
    → ((byte_of o s).0 ≡ b) × (ahead (byte_of o s).1 ≡ rest)
byte_of-ahead s none b rest at e = elim (order_cases s.at (length s.bytes)) [
  | inl lt ↦ absurd (cc (get_elem?-of_lt s.bytes s.at lt).1)
  | inr ge ↦
      let past : length s.bytes ≤ s.at = ground arith in
      let nothing : ahead s ≡ [] = ap (map (λ c. c % 256)) (drop-of_le s.bytes s.at past) in
      absurd (cc)
]
byte_of-ahead s (some c) b rest at e =
    let same : ahead s ≡ c % 256 ∷ map (λ b. b % 256) (drop (suc s.at) s.bytes) =
      ap (map (λ b. b % 256)) (drop-of_get_elem? s.bytes s.at c at) in
    let both : c % 256 ∷ map (λ b. b % 256) (drop (suc s.at) s.bytes) ≡ b ∷ rest = sym same ∙ e in
    (cc, cc)

-- A read of a byte takes the first one of those ahead.
read_byte-ahead :
    (s : File) (b : ℕ) (rest : List ℕ)
    → ahead s ≡ b ∷ rest
    → ((read_byte s).0 ≡ b) × (ahead (read_byte s).1 ≡ rest)
read_byte-ahead s b rest e = byte_of-ahead s (get_elem? s.bytes s.at) b rest refl e

-- The lowest byte and the rest of a value of `n + 1` bytes.
low_byte : (v n : ℕ) → v % 256 ^ suc n ≡ v % 256 + 256 * (v / 256 % 256 ^ n)
low_byte v n =
    let m = 256 ^ n in
    let t = v / 256 / m in
    let x = v % 256 + 256 * (v / 256 % m) in
    let some_bit = one-le-pow n 256 (omega arith) in
    let split : v ≡ x + 256 * m * t = omega (arith, div-add-mod (v / 256) m, mul_assoc 256 m t) in
    let small : x < 256 * m = omega (arith, mod-lt (v / 256) {m = m} some_bit) in
    rw (pow-succ' 256 n)
      (ap (λ w. w % (256 * m)) split ∙ add-mul-mod_self_left x (256 * m) t ∙ mod-eq_of_lt small)

little_endian-ahead :
    (n v : ℕ) (rest : List ℕ) (s : File)
    → ahead s ≡ int_bytes n v ++ rest
    → ((little_endian n s).0 ≡ v % 256 ^ n) × (ahead (little_endian n s).1 ≡ rest)
little_endian-ahead zero v rest s e = (omega arith, e)
little_endian-ahead (suc n) v rest s e =
    let (low, next) = read_byte-ahead s (v % 256) (int_bytes n (v / 256) ++ rest) e in
    let (high, after) = little_endian-ahead n (v / 256) rest (read_byte s).1 next in
    (rw (low, high) (sym (low_byte v n)), after)

buffer-ahead :
    (bytes rest : List ℕ) (s : File)
    → ahead s ≡ bytes ++ rest
    → ((buffer (length bytes) s).0 ≡ bytes) × (ahead (buffer (length bytes) s).1 ≡ rest)
buffer-ahead [] rest s e = (refl, e)
buffer-ahead (b ∷ bytes) rest s e =
    let (first, next) = read_byte-ahead s b (bytes ++ rest) e in
    let (others, after) = buffer-ahead bytes rest (read_byte s).1 next in
    (rw (first, others), after)

text_to-ahead :
    (fuel : ℕ) (text rest : List ℕ) (s : File)
    → All (λ c. 0 < c) text
    → length text < fuel
    → ahead s ≡ text ++ (0 ∷ rest)
    → ((text_to fuel s).0 ≡ text) × (ahead (text_to fuel s).1 ≡ rest)
text_to-ahead zero text rest s no_null enough e = absurd (omega arith)
text_to-ahead (suc fuel) [] rest s no_null enough e =
    let (null, next) = read_byte-ahead s 0 rest e in rw null (refl, next)
text_to-ahead (suc fuel) (c ∷ text) rest s (char, no_null) enough e =
    let (first, next) = read_byte-ahead s c (text ++ (0 ∷ rest)) e in
    let (others, after) = text_to-ahead fuel text rest (read_byte s).1 no_null (omega arith) next in
    let no_end : (c == 0) ≡ false = ground arith in rw (first, no_end) (rw others, after)

length-drop_exact : (n : ℕ) (xs : List ℕ) → length (drop n xs) ≡ length xs - n
length-drop_exact zero xs = omega arith
length-drop_exact (suc n) [] = omega arith
length-drop_exact (suc n) (x ∷ xs) = omega (arith, length-drop_exact n xs)

length-map : (f : ℕ → ℕ) (xs : List ℕ) → length (map f xs) ≡ length xs
length-map f [] = refl
length-map f (x ∷ xs) = ap suc (length-map f xs)

pub io-Delivers : Delivers io ahead
io-Delivers = record {
  int = little_endian-ahead;
  single = little_endian-ahead 4;
  buffer = buffer-ahead;
  text = λ s rest f no_null e.
      let room = length-map (λ b. b % 256) (drop f.at f.bytes) in
      let there = ap length e ∙ length-append s (0 ∷ rest) in
      text_to-ahead (length f.bytes - f.at) s rest f no_null
        (omega (arith, room, there, length-drop_exact f.at f.bytes)) e;
}

-- The bytes written so far as an output stream.
abbrev pub out : BinOut
out = record {
  Out = List ℕ;
  write_int = λ v n o. o ++ int_bytes n v;
  write_string = λ s o. o ++ s;
  write_single = λ v o. o ++ int_bytes 4 v;
}

pub out-IsFaithful : IsFaithful out (λ o. o)
out-IsFaithful = record {
  written-int = λ v n o. refl;
  written-string = λ s o. refl;
  written-single = λ v o. refl;
}
