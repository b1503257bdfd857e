-- ===== src/Bam/Playback.antt =====
-- src/bam.cpp: what `update` plays of a song without jumps, up to the next wait.
use adplug.Base.{ℕ, zero, suc, ◌+◌, ◌-◌, ◌≤◌, ◌<◌, ◌≡◌, refl, ap, ◌∙◌, arith}
use adplug.Base.{List, [], ◌∷◌, ◌++◌, length, All}
use adplug.Base.{Bool, true, false, not, ◌==◌, ltb, leb}
use adplug.Base.{length-append}
use adplug.Base.{Returns, Returns-map}
use adplug.Base.Loops.{rounds}
use mathlib.Core.List.{append_assoc}
use adplug.Bam.{Bam, skip}
use adplug.Bam.{wait, round, update}
use adplug.Bam.Straight.{Straight, code, codes, IsStraight, sounds, Before, byte_at-ok, skip-Before}
use adplug.Bam.Straight.Carries.{straight-Carries}

-- What playing the commands up to a wait comes to.
pub record Played (ss : List Straight) (n : ℕ) (p : Bam) (x : Bool × Bam) : Type 0 where
  pub answers : x.0 ≡ not p.songend
  pub heard : x.1.opl ≡ sounds ss p.opl
  pub waits : x.1.del ≡ n - 127
  pub moved : x.1.pos ≡ p.pos + length (codes ss) + 1

rounds-Played :
    (ss : List Straight) (n : ℕ) (rest : List ℕ) (fuel : ℕ) (p : Bam)
    → All IsStraight ss
    → 128 ≤ n
    → Before (codes ss ++ (n ∷ rest)) p
    → length ss < fuel
    → Returns (Played ss n p) (rounds fuel round p)
unfolding rounds round wait skip
rounds-Played ss n rest zero p all is_wait h enough = absurd (omega arith)
rounds-Played [] n rest (suc fuel) p all is_wait h enough =
    let (up, b) = skip-Before (n ∷ []) rest p h (omega arith) in
    let no_command : ltb n 128 ≡ false = ground arith in
    let read = byte_at-ok (n ∷ rest) p 0 n h refl in
    rw (read, no_command, Returns)
      (record { answers = refl; heard = refl; waits = refl; moved = omega (arith, up) })
rounds-Played (s ∷ ss) n rest (suc fuel) p (is, all) is_wait h enough =
    let tail = codes ss ++ (n ∷ rest) in
    let split : Before (code s ++ tail) p = rw (← append_assoc (code s) (codes ss) (n ∷ rest)) h in
    let (q, e, c) = straight-Carries s tail p is split in
    rw e (
      Returns-map (Played ss n q) (Played (s ∷ ss) n p) _
        (λ x y. record {
          answers = y.answers ∙ ap not c.going;
          heard = y.heard ∙ ap (sounds ss) c.heard;
          waits = y.waits;
          moved = omega (arith, y.moved, c.moved, length-append (code s) (codes ss));
        })
        (rounds-Played ss n rest fuel q all is_wait c.before (omega arith)))

pub update-Played :
    (ss : List Straight) (n : ℕ) (rest : List ℕ) (fuel : ℕ) (p : Bam)
    → All IsStraight ss
    → 128 ≤ n
    → Before (codes ss ++ (n ∷ rest)) p
    → p.del ≡ 0
    → p.pos < p.size
    → length ss < fuel
    → Returns (Played ss n p) (update fuel p)
unfolding update
update-Played ss n rest fuel p all is_wait h still inside enough =
    let in_song : leb p.size p.pos ≡ false = ground arith in
    let at_rest : (p.del == 0) ≡ true = ground arith in
    rw (at_rest, in_song) (rounds-Played ss n rest fuel p all is_wait h enough)
