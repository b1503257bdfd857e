-- ===== src/Hsc/Packed.antt =====
-- src/mtk.cpp and src/hsp.cpp: what the loaders of packed songs copy into the arrays of the HSC
-- player. A copy that leaves the source or the array is a fault.
use adplug.Base.{ℕ, zero, suc, ◌+◌, ◌*◌, ◌≤◌, ◌≡◌, refl, ap, arith, List, [], ◌∷◌, drop}
use adplug.Base.{length, length-drop_le, All, ltb, if◌then◌else◌, if_split}
use adplug.Base.{Outcome, ok, fault, Returns}
use adplug.Hsc.{Hsc, Note}
use adplug.Hsc.Load.{fix_instrument, modify}
use adplug.Hsc.Safety.{IsPattern}

pub take : ℕ → List ℕ → List ℕ
take zero xs = []
take (suc n) [] = []
take (suc n) (x ∷ xs) = x ∷ take n xs

-- The `n` bytes at `at`.
pub slice : ℕ → ℕ → List ℕ → Outcome (List ℕ)
slice at n bytes = if ltb (length bytes) (at + n) then fault else ok (take n (drop at bytes))

-- The instruments of twelve bytes each, corrected.
pub instruments : ℕ → List ℕ → List (List ℕ)
instruments zero bytes = []
instruments (suc n) bytes = fix_instrument (take 12 bytes) ∷ instruments n (drop 12 bytes)

-- Bytes over the first notes, two for each, and the bytes that are left.
pub put_notes : List ℕ → List Note → List Note × List ℕ
put_notes [] notes = (notes, [])
put_notes (b ∷ bytes) [] = ([], b ∷ bytes)
put_notes (b ∷ []) (n ∷ notes) = (record n { note = b } ∷ notes, [])
put_notes (b ∷ c ∷ bytes) (n ∷ notes) =
    let (rest, more) = put_notes bytes notes in (record { note = b; effect = c } ∷ rest, more)

pub put_patterns : List ℕ → List (List Note) → List (List Note)
put_patterns bytes [] = []
put_patterns bytes (p ∷ patterns) =
    let (p1, more) = put_notes bytes p in p1 ∷ put_patterns more patterns

-- `sizeof(patterns)`
abbrev pub sizeof_patterns : ℕ
sizeof_patterns = 50 * 64 * 9 * 2

pub copy_patterns : List ℕ → List (List Note) → Outcome (List (List Note))
copy_patterns bytes patterns =
    if ltb sizeof_patterns (length bytes) then fault else ok (put_patterns bytes patterns)

length-take : (n : ℕ) (xs : List ℕ) → n ≤ length xs → length (take n xs) ≡ n
unfolding take
length-take zero xs h = refl
length-take (suc n) [] h = absurd (omega arith)
length-take (suc n) (x ∷ xs) h = ap suc (length-take n xs (omega arith))

pub slice-ok :
    (at n : ℕ) (bytes : List ℕ)
    → at + n ≤ length bytes
    → Returns (λ (xs : List ℕ). length xs ≡ n) (slice at n bytes)
unfolding slice
slice-ok at n bytes h =
    if_split (Returns (λ (xs : List ℕ). length xs ≡ n)) (ltb (length bytes) (at + n)) _ _
      (λ short. absurd (ground (arith, h)))
      (λ enough.
        length-take n (drop at bytes)
          (omega (arith, h, length-drop_le at bytes (omega (arith, h)))))

length-modify : (i : ℕ) (f : ℕ → ℕ) (xs : List ℕ) → length (modify i f xs) ≡ length xs
unfolding modify
length-modify i f [] = refl
length-modify zero f (x ∷ xs) = refl
length-modify (suc i) f (x ∷ xs) = ap suc (length-modify i f xs)

length-fix_instrument : (ins : List ℕ) → length (fix_instrument ins) ≡ length ins
unfolding fix_instrument
length-fix_instrument ins = simp (length-modify) refl

pub length-instruments : (n : ℕ) (bytes : List ℕ) → length (instruments n bytes) ≡ n
unfolding instruments
length-instruments zero bytes = refl
length-instruments (suc n) bytes = ap suc (length-instruments n (drop 12 bytes))

pub instruments-sizes :
    (n : ℕ) (bytes : List ℕ)
    → n * 12 ≤ length bytes
    → All (λ (r : List ℕ). length r ≡ 12) (instruments n bytes)
unfolding instruments
instruments-sizes zero bytes h = tt
instruments-sizes (suc n) bytes h = (
  omega (arith, length-fix_instrument (take 12 bytes), length-take 12 bytes (omega arith)),
  instruments-sizes n (drop 12 bytes) (omega (arith, length-drop_le 12 bytes (omega arith))),
)

length-put_notes :
    (bytes : List ℕ) (notes : List Note) → length (put_notes bytes notes).0 ≡ length notes
unfolding put_notes
length-put_notes [] notes = refl
length-put_notes (b ∷ bytes) [] = refl
length-put_notes (b ∷ []) (n ∷ notes) = refl
length-put_notes (b ∷ c ∷ bytes) (n ∷ notes) = ap suc (length-put_notes bytes notes)

-- An entry of which nothing is known.
abbrev pub Any : Note → Type 0
Any n = Unit {0}

All-Any : (notes : List Note) → All Any notes
All-Any [] = tt
All-Any (n ∷ notes) = (tt, All-Any notes)

put_patterns-sizes :
    (S : Note → Type 0) (bytes : List ℕ) (patterns : List (List Note))
    → All (IsPattern S) patterns
    → All (IsPattern Any) (put_patterns bytes patterns)
unfolding put_patterns
put_patterns-sizes S bytes [] h = tt
put_patterns-sizes S bytes (p ∷ patterns) (one, rest) =
    let (p1, more) = put_notes bytes p in
    (
      (omega (arith, length-put_notes bytes p, one.0), All-Any p1),
      put_patterns-sizes S more patterns rest,
    )

length-put_patterns :
    (bytes : List ℕ) (patterns : List (List Note))
    → length (put_patterns bytes patterns) ≡ length patterns
unfolding put_patterns
length-put_patterns bytes [] = refl
length-put_patterns bytes (p ∷ patterns) =
    ap suc (length-put_patterns (put_notes bytes p).1 patterns)

abbrev pub Filled : List (List Note) → Type 0
Filled patterns = (length patterns ≡ 50) × All (IsPattern Any) patterns

pub copy_patterns-Filled :
    (S : Note → Type 0) (bytes : List ℕ) (patterns : List (List Note))
    → length bytes ≤ 57600
    → length patterns ≡ 50
    → All (IsPattern S) patterns
    → Returns Filled (copy_patterns bytes patterns)
unfolding copy_patterns
copy_patterns-Filled S bytes patterns fits count sizes =
    if_split (Returns Filled) (ltb 57600 (length bytes)) _ _ (λ over. absurd (ground arith))
      (λ on. (
        omega (arith, length-put_patterns bytes patterns, count),
        put_patterns-sizes S bytes patterns sizes,
      ))

-- The arrays of a player have the sizes that its class gives them, whatever they hold.
pub record HasArrays (p : Hsc) : Type 0 where
  pub channels : length p.channel ≡ 9
  pub adl_freqs : length p.adl_freq ≡ 9
  pub song_size : length p.song ≡ 128
  pub pattern_count : length p.patterns ≡ 50
  pub pattern_sizes : All (IsPattern Any) p.patterns
