-- ===== src/Hsc/Load.antt =====
-- src/hsc.cpp: `ChscPlayer::load` and the counts that the player reports. The arrays of a new player
-- hold what its memory holds, so `load` starts from a player `p` with any contents. `none` is the
-- return of false.
pub mod Orders
use adplug.Base.{
  ℕ, zero, suc, ◌+◌, ◌-◌, ◌*◌, ◌/◌, ◌%◌, ◌^◌, bit_and, bit_xor, List, [], ◌∷◌, ◌++◌, drop,
}
use adplug.Base.{length, get_elem?, set, Option, none, some, Bool, true, false, not, ◌&&◌, ◌||◌}
use adplug.Base.{◌==◌, ltb, leb, if◌then◌else◌, Outcome, ok, ◌>>=◌, deref}
use adplug.Base.Stream.{BinIo, read_bytes}
use adplug.Provider.{Provider, extension, filesize}
use adplug.Hsc.{Hsc, Note, rewind}

abbrev hsc_ext : List ℕ
hsc_ext = 0x2e ∷ 0x68 ∷ 0x73 ∷ 0x63 ∷ []

-- Replaces the element at `i`, if there is one, by its image.
unfoldable pub modify : ℕ → (ℕ → ℕ) → List ℕ → List ℕ
modify i f [] = []
modify zero f (x ∷ xs) = f x ∷ xs
modify (suc i) f (x ∷ xs) = x ∷ modify i f xs

-- `x ^= (x & 0x40) << 1`, on a byte.
pub fix_level : ℕ → ℕ
fix_level x = bit_xor x (bit_and x 0x40 * 2) % 2 ^ 8

unfoldable pub fix_instrument : List ℕ → List ℕ
fix_instrument ins = modify 11 (λ x. x / 2 ^ 4) (modify 3 fix_level (modify 2 fix_level ins))

-- An entry of the track list that is out of range ends the song.
pub fix_order : ℕ → ℕ → ℕ
fix_order total entry =
    if ltb 0x31 (bit_and entry 0x7f) || leb total (bit_and entry 0x7f) then 0xff else entry

-- The loop that reads the patterns stores this many bytes; a note has two and a pattern 64 * 9 notes.
abbrev pub pattern_bytes : ℕ
pattern_bytes = 50 * 64 * 9

abbrev pub notes_per_pattern : ℕ
notes_per_pattern = 64 * 9

-- The patterns that those bytes fill.
abbrev pub patterns_read : ℕ
patterns_read = pattern_bytes / (2 * notes_per_pattern)

module _ (io : BinIo) where
  pub read_instruments : ℕ → io.Stream → List (List ℕ) × io.Stream
  read_instruments zero f = ([], f)
  read_instruments (suc n) f =
      let (ins, f1) = read_bytes io 12 f in
      let (rest, f2) = read_instruments n f1 in (fix_instrument ins ∷ rest, f2)

  pub read_orders : ℕ → ℕ → io.Stream → List ℕ × io.Stream
  read_orders total zero f = ([], f)
  read_orders total (suc n) f =
      let (b, f1) = io.read_int 1 f in
      let (rest, f2) = read_orders total n f1 in (fix_order total (b % 2 ^ 8) ∷ rest, f2)

  pub read_notes : ℕ → io.Stream → List Note × io.Stream
  read_notes zero f = ([], f)
  read_notes (suc n) f =
      let (note, f1) = io.read_int 1 f in
      let (effect, f2) = io.read_int 1 f1 in
      let (rest, f3) = read_notes n f2 in
      (record { note = note % 2 ^ 8; effect = effect % 2 ^ 8 } ∷ rest, f3)

  pub read_patterns : ℕ → io.Stream → List (List Note) × io.Stream
  read_patterns zero f = ([], f)
  read_patterns (suc n) f =
      let (pattern, f1) = read_notes notes_per_pattern f in
      let (rest, f2) = read_patterns n f1 in (pattern ∷ rest, f2)

  -- The load section: what the file gives fills the front of the arrays.
  pub read_song : ℕ → io.Stream → Hsc → Hsc
  read_song size f p =
      let (instr, f1) = read_instruments 128 f in
      let (orders, f2) = read_orders ((size - 1587) / 1152) 51 f1 in
      let (patterns, f3) = read_patterns patterns_read f2 in
      record p {
        instr = instr;
        song = orders ++ drop 51 p.song;
        patterns = patterns ++ drop patterns_read p.patterns;
      }

  -- The file's size lets it through.
  pub has_size : ℕ → Bool
  has_size size = not (ltb (59187 + 1) size) && not (ltb size (1587 + 1152))

  pub load : Provider io → List ℕ → Hsc → Outcome (Option Hsc)
  load fp filename p = elim (fp.open_file filename) [
    | none ↦ ok none
    | some f ↦
        let (size, f') = filesize io f in
        if extension filename hsc_ext && has_size size
        then (do p' ← rewind (read_song size f' p); ok (some p'))
        else ok none
  ]

-- `getpatterns`: the highest entry before the first 0xff, plus one.
pub max_pattern : ℕ → ℕ → List ℕ → ℕ
max_pattern zero best song = best
max_pattern (suc n) best [] = best
max_pattern (suc n) best (s ∷ song) =
    let rest = max_pattern n (if ltb best s then s else best) song in
    if s == 0xff then best else rest

pub getpatterns : Hsc → ℕ
getpatterns p = max_pattern 51 0 p.song + 1

pub count_orders : ℕ → List ℕ → ℕ
count_orders zero song = 0
count_orders (suc n) [] = 0
count_orders (suc n) (s ∷ song) =
    let rest = count_orders n song in if s == 0xff then 0 else suc rest

pub getorders : Hsc → ℕ
getorders p = count_orders 51 p.song

pub is_used : List ℕ → Bool
is_used [] = false
is_used (b ∷ bs) = not (b == 0) || is_used bs

pub count_used : List (List ℕ) → ℕ
count_used [] = 0
count_used (ins ∷ rest) = (if is_used ins then 1 else 0) + count_used rest

-- 128 at most, which fits the `unsigned char` of the source.
pub getinstruments : Hsc → ℕ
getinstruments p = count_used p.instr
