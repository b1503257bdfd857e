-- ===== src/Lzss/Tokens.antt =====
-- src/unlzss.c: what a compressed file means, tokens that stand for a byte or for a part of the window,
-- and how they are written.
use adplug.Base.{ℕ, zero, suc, ◌+◌, ◌-◌, ◌*◌, ◌/◌, ◌%◌, ◌≤◌, ◌<◌, arith, List, [], ◌∷◌, ◌++◌}
use adplug.Base.{length, length-append, ◌==◌, if◌then◌else◌}

pub data Token : Type 0 where
  byte : ℕ → Token
  again : ℕ → ℕ → Token

abbrev pub IsToken : Token → Type 0
IsToken (byte c) = c < 256
IsToken (again place n) = (place < 4096) × (3 ≤ n) × (n < 19)

-- The last 4096 bytes, the next place in them, and the bytes so far, the last one first.
pub record Window : Type 0 where
  pub bytes : ℕ → ℕ
  pub place : ℕ
  pub output : List ℕ

abbrev pub push : ℕ → Window → Window
push c w = record {
  bytes = λ i. if i == w.place then c else w.bytes i;
  place = (w.place + 1) % 4096;
  output = c ∷ w.output;
}

-- `n` bytes from a place on, byte by byte, so that the copy may run into what it wrote.
abbrev pub push_again : ℕ → ℕ → Window → Window
push_again zero place w = w
push_again (suc n) place w = push_again n ((place + 1) % 4096) (push (w.bytes place) w)

abbrev pub expand : Token → Window → Window
expand (byte c) w = push c w
expand (again place n) w = push_again n place w

abbrev pub expand_all : List Token → Window → Window
expand_all [] w = w
expand_all (t ∷ ts) w = expand_all ts (expand t w)

abbrev pub first_window : Window
first_window = record { bytes = λ i. 0; place = 4078; output = [] }

abbrev pub size : Token → ℕ
size (byte c) = 1
size (again place n) = n

abbrev pub total : List Token → ℕ
total [] = 0
total (t ∷ ts) = size t + total ts

-- The bytes of a token, and the flag that stands before it.
abbrev pub token_bytes : Token → List ℕ
token_bytes (byte c) = c ∷ []
token_bytes (again place n) = place % 256 ∷ (place / 256 * 16 + (n - 3)) ∷ []

abbrev pub flag : Token → ℕ
flag (byte c) = 1
flag (again place n) = 0

-- The next `n` flags as a number, the first one lowest.
abbrev pub flags : ℕ → List Token → ℕ
flags zero ts = 0
flags (suc n) [] = 0
flags (suc n) (t ∷ ts) = flag t + 2 * flags n ts

-- Eight flags stand before the eight tokens that they are for; `n` of them are given already.
abbrev pub bytes_from : ℕ → List Token → List ℕ
bytes_from n [] = []
bytes_from zero (t ∷ ts) = flags 8 (t ∷ ts) ∷ (token_bytes t ++ bytes_from 7 ts)
bytes_from (suc n) (t ∷ ts) = token_bytes t ++ bytes_from n ts

abbrev pub encode : List Token → List ℕ
encode ts = bytes_from 0 ts

length-token_bytes : (t : Token) → 1 ≤ length (token_bytes t)
length-token_bytes (byte c) = omega arith
length-token_bytes (again place n) = omega arith

-- There is a byte at least for each token.
pub length-bytes_from : (n : ℕ) (ts : List Token) → length ts ≤ length (bytes_from n ts)
length-bytes_from n [] = omega arith
length-bytes_from zero (t ∷ ts) = omega (
  arith,
  length-append (token_bytes t) (bytes_from 7 ts),
  length-token_bytes t,
  length-bytes_from 7 ts,
)
length-bytes_from (suc n) (t ∷ ts) = omega (
  arith,
  length-append (token_bytes t) (bytes_from n ts),
  length-token_bytes t,
  length-bytes_from n ts,
)
