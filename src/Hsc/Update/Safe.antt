-- ===== src/Hsc/Update/Safe.antt =====
-- src/hsc.cpp: `update` stays inside of its arrays, and what breaks that.
use adplug.Base.{ℕ, zero, suc, ◌+◌, ◌-◌, ◌*◌, ◌%◌, ◌^◌, ◌≤◌, ◌<◌, ◌≡◌, bit_and}
use adplug.Base.{length, All-get_elem?}
use adplug.Base.{get_elem?-of_lt, inl, inr, arith, Bool, false, not, ◌&&◌, ◌==◌}
use adplug.Base.{if◌then◌else◌, if_both, leb}
use adplug.Base.{Bool-cases, ◌≢◌, fault, ok, Returns, Returns-bind}
use adplug.Base.Bits.{bit_and-127, bit_and-63}
use adplug.Hsc.{Hsc, Note}
use adplug.Hsc.{setinstr}
use adplug.Hsc.Update.{channel_step, row_steps}
use adplug.Hsc.Update.{arrange, next_position, advance, play_row, update}
use adplug.Hsc.Safety.{IsValid, IsSafe}
use adplug.Hsc.Safety.{HasPlace-move, instrument_beyond}
use adplug.Hsc.Safety.{channel_at-ok, op_table-ok}
use adplug.Hsc.Safety.{IsPattern}
use adplug.Hsc.Update.Channel.{channel_step-IsValid}

row_steps-IsValid :
    (n chan pattnr pattoff : ℕ) (p : Hsc)
    → IsValid p
    → chan + n ≤ 9
    → pattnr < 50
    → pattoff + n ≤ 576
    → Returns IsValid (row_steps n chan pattnr pattoff p)
unfolding row_steps
row_steps-IsValid zero chan pattnr pattoff p v hc hp ho = v
row_steps-IsValid (suc n) chan pattnr pattoff p v hc hp ho =
    let (pattern, ep) = get_elem?-of_lt p.patterns pattnr (omega (arith, v.0.pattern_count)) in
    let (size, safe) =
      All-get_elem? (IsPattern IsSafe) p.patterns pattnr pattern v.0.pattern_sizes ep in
    let (entry, ee) = get_elem?-of_lt pattern pattoff (omega arith) in
    rw (ep, ee)
      (Returns-bind IsValid IsValid (channel_step chan entry p) _
        (channel_step-IsValid chan (omega arith) entry p
          (All-get_elem? IsSafe pattern pattoff entry safe ee) v)
        (λ q w.
          row_steps-IsValid n (chan + 1) pattnr (pattoff + 1) q w (omega arith) hp (omega arith)))

next_position-IsValid : (p : Hsc) → IsValid p → IsValid (next_position p)
unfolding next_position
next_position-IsValid p (song, place) = (
  song,
  HasPlace-move p.channel p.adl_freq p.pattpos p.songpos p.pattpos _ place.row (omega arith) place,
)

advance-IsValid : (p : Hsc) → IsValid p → IsValid (advance p)
unfolding advance
advance-IsValid p (song, place) =
    let row : ℕ = bit_and (p.pattpos + 1) 63 in
    let place' = λ (r : ℕ) (hr : r < 64).
      HasPlace-move p.channel p.adl_freq p.pattpos p.songpos r p.songpos hr place.order place in
    let v1 : IsValid (record p { del = p.speed; pattpos = row }) =
      (song, place' row (omega (arith, bit_and-63 (p.pattpos + 1)))) in
    let v2 : IsValid (record p { del = p.speed; pattpos = 0; pattbreak = 0 }) =
      (song, place' 0 (omega arith)) in
    if_both IsValid (p.pattbreak == 0) _ _
      (if_both IsValid (row == 0) _ _ (next_position-IsValid _ v1) v1) (next_position-IsValid _ v2)

arrange-IsValid : (p : Hsc) → IsValid p → Returns (λ (x : ℕ × Hsc). IsValid x.1) (arrange p)
unfolding arrange
arrange-IsValid p (song, place) =
    let R = Returns (λ (x : ℕ × Hsc). IsValid x.1) in
    let size : length p.song ≡ 128 = song.song_size in
    let (pattnr, e) = get_elem?-of_lt p.song p.songpos (omega (arith, place.order)) in
    let (first, e0) = get_elem?-of_lt p.song 0 (omega arith) in
    let low : bit_and pattnr 127 < 128 = omega (arith, bit_and-127 pattnr) in
    let (next, en) = get_elem?-of_lt p.song (bit_and pattnr 127) (omega arith) in
    let move = λ (r o : ℕ) (hr : r < 64) (ho : o < 128).
      HasPlace-move p.channel p.adl_freq p.pattpos p.songpos r o hr ho place in
    rw e (
      if_both R (leb 0xb2 pattnr) _ _
        (rw (e0, Returns) (song, move p.pattpos 0 place.row (omega arith)))
        (if_both R (not (bit_and pattnr 128 == 0) && leb pattnr 0xb1) _ _
          (rw (en, Returns) (song, move 0 (bit_and pattnr 127) (omega arith) low)) (song, place)))

play_row-IsValid : (p : Hsc) → IsValid p → Returns IsValid (play_row p)
unfolding play_row
play_row-IsValid p v =
    Returns-bind (λ (x : ℕ × Hsc). IsValid x.1) IsValid
      (arrange (record p { fadein = p.fadein - 1 })) _
      (arrange-IsValid (record p { fadein = p.fadein - 1 }) v)
      (λ (pattnr, p1) v1.
        Returns-bind IsValid IsValid
          (if leb 50 pattnr then ok p1 else row_steps 9 0 pattnr (p1.pattpos * 9) p1) _
          (row_or_skip pattnr p1 v1) (λ p2 v2. advance-IsValid p2 v2))
  where
    row_or_skip :
        (pattnr : ℕ) (p1 : Hsc)
        → IsValid p1
        → Returns IsValid
            (if leb 50 pattnr then ok p1 else row_steps 9 0 pattnr (p1.pattpos * 9) p1)
    row_or_skip pattnr p1 v1 = elim (Bool-cases (leb 50 pattnr)) [
      | inl e ↦ rw (e, Returns) v1
      | inr e ↦ rw e (
          row_steps-IsValid 9 0 pattnr (p1.pattpos * 9) p1 v1 (omega arith) (ground arith)
            (omega (arith, v1.1.row)))
    ]

-- A tick of a valid player, whose instrument changes all name one of the 128 instruments, stays
-- inside of every array, and the player is valid after it.
pub update-IsValid : (p : Hsc) → IsValid p → Returns (λ (x : Bool × Hsc). IsValid x.1) (update p)
unfolding update
update-IsValid p v =
    if_both (Returns (λ (x : Bool × Hsc). IsValid x.1)) ((p.del + 2 ^ 32 - 1) % 2 ^ 32 == 0) _ _
      (Returns-bind IsValid _ (play_row _) _ (play_row-IsValid _ v) (λ q w. w)) v

-- An entry that sets an instrument beyond the 128th makes the player read outside of its
-- instruments, on every channel and whatever else it holds.
pub channel_step_beyond :
    (chan : ℕ) (n : Note) (p : Hsc)
    → IsValid p
    → chan < 9
    → bit_and n.note 128 ≢ 0
    → 128 ≤ n.effect
    → channel_step chan n p ≡ fault
unfolding channel_step setinstr
channel_step_beyond chan n p v h sets beyond =
    let (c, ec, hc) = channel_at-ok p v chan h in
    let (op, eo) = op_table-ok chan h in
    let is_set : (bit_and n.note 128 == 0) ≡ false = ground arith in
    rw is_set (rw (ec, eo) (rw (instrument_beyond p v n.effect beyond)))
