-- ===== src/Hsc/Hsp.antt =====
-- src/hsp.cpp: `ChspLoader::load`, which unpacks runs of bytes into the arrays of the HSC player.
-- The unpacked array begins with what the memory holds. `none` is the return of false.
pub mod Runs
pub mod Load
use adplug.Base.{
  ℕ, zero, suc, ◌+◌, ◌/◌, ◌-◌, ◌*◌, ◌<◌, List, [], ◌∷◌, ◌++◌, drop, length, get_elem?,
}
use adplug.Base.{Option, none, some, Bool, true, false, not, ◌&&◌, ltb, leb, if◌then◌else◌}
use adplug.Base.{Outcome, ok, fault, ◌>>=◌, deref}
use adplug.Base.Loops.{Round, return_with, next_round, rounds}
use adplug.Base.Stream.{BinIo, read_bytes}
use adplug.Provider.{Provider, extension, filesize}
use adplug.Hsc.{Hsc, rewind}
use adplug.Hsc.Packed.{slice, instruments, copy_patterns}

abbrev pub hsp_ext : List ℕ
hsp_ext = 0x2e ∷ 0x68 ∷ 0x73 ∷ 0x70 ∷ []

pub record Unpacking : Type 0 where
  pub org : ℕ → ℕ
  pub i : ℕ
  pub j : ℕ

-- `memset(org + at, v, n)`, in an array of `size` bytes.
pub memset : ℕ → ℕ → ℕ → ℕ → (ℕ → ℕ) → Outcome (ℕ → ℕ)
memset size at v n org =
    if ltb size (at + n) then fault else ok (λ k. if leb at k && ltb k (at + n) then v else org k)

module _ (cmp : List ℕ) (orgsize : ℕ) where
  abbrev pub Turn : Type 0
  Turn = Round (Unit {0}) Unpacking

  -- A run is one byte short where it would reach the end.
  pub run_length : ℕ → ℕ → ℕ
  run_length j cnt = if ltb (j + cnt) orgsize then cnt else orgsize - j - 1

  pub round : Unpacking → Outcome Turn
  round s =
      if leb (length cmp) s.i
      then ok (return_with tt s)
      else if leb orgsize s.j
      then ok (return_with tt s)
      else (do
        cnt ← deref (get_elem? cmp s.i)
        v ← deref (get_elem? cmp (s.i + 1))
        org ← memset orgsize s.j v (run_length s.j cnt) s.org
        ok (next_round (record { org = org; i = s.i + 2; j = s.j + cnt })))

  -- A round takes two bytes, and the last one finds the end.
  pub unpack : (ℕ → ℕ) → Outcome ((Unit {0}) × Unpacking)
  unpack memory = rounds (suc ((length cmp + 1) / 2)) round (record { org = memory; i = 0; j = 0 })

-- The `n` bytes of `org` from `at` on.
pub block : ℕ → ℕ → (ℕ → ℕ) → List ℕ
block zero at org = []
block (suc n) at org = org at ∷ block n (at + 1) org

-- The copies into the arrays of the player, from `orgsize` unpacked bytes.
pub convert : ℕ → (ℕ → ℕ) → Hsc → Outcome (Option Hsc)
convert orgsize org p = if ltb orgsize (128 * 12 + 51) then ok none else (do
  insts ← slice 0 (128 * 12) (block orgsize 0 org)
  song ← slice (128 * 12) 51 (block orgsize 0 org)
  notes ← slice (128 * 12 + 51) (orgsize - 128 * 12 - 51) (block orgsize 0 org)
  patterns ← copy_patterns notes p.patterns
  q ← rewind (record p {
    instr = instruments 128 insts;
    song = song ++ drop 51 p.song;
    patterns = patterns;
  })
  ok (some q))

module _ (io : BinIo) where
  -- Behind the validation: the size of the unpacked song, and all bytes that follow it, with what is
  -- read past the end for the two that it takes itself.
  pub read_packed : ℕ → io.Stream → ℕ × List ℕ
  read_packed size f = ((io.read_int 2 f).0, (read_bytes io size (io.read_int 2 f).1).0)

  pub load : (ℕ → ℕ) → Provider io → List ℕ → Hsc → Outcome (Option Hsc)
  load memory fp filename p = elim (fp.open_file filename) [
    | none ↦ ok none
    | some f ↦
        let (orgsize, cmp) = read_packed (filesize io f).0 (filesize io f).1 in
        if not (extension filename hsp_ext)
        then ok none
        else if ltb 59187 orgsize
        then ok none
        else unpack cmp orgsize memory >>= λ x.
            convert (if ltb x.1.j orgsize then x.1.j else orgsize) x.1.org p
  ]
