-- ===== src/Protrack/Timer/Ticks.antt =====
-- src/protrack.cpp: the effects of a tick stay inside of the arrays of `CmodPlayer`.
use adplug.Base.{ℕ, zero, suc, ◌+◌, ◌-◌, ◌%◌, ◌<◌, ◌≤◌}
use adplug.Base.{◌==◌, ltb}
use adplug.Base.{◌&&◌, if_both, arith, Outcome, Returns, Returns-bind}
use adplug.Protrack.{Mod}
use adplug.Protrack.{set_opl_chip}
use adplug.Protrack.{tone_portamento}
use adplug.Protrack.Timer.{vibrato}
use adplug.Protrack.Timer.{info_of}
use adplug.Protrack.Timer.{special_arpeggio}
use adplug.Protrack.Timer.{timer_effect, timer_effects}
use adplug.Protrack.Safety.{Shape, IsValid, channel_at-ok}
use adplug.Protrack.Safety.{set_opl_chip-IsValid}
use adplug.Protrack.Safety.{playnote-IsValid}
use adplug.Protrack.Safety.Keeps.{slide_up-IsChannel, slide_down-IsChannel}
use adplug.Protrack.Timer.Keeps.{counted_slides-IsChannel}
use adplug.Protrack.Timer.Safe.{
  bend-IsValid, tone_portamento-IsValid, vibrato-IsValid, volume_slide-IsValid, vol_up_alt-IsValid,
  vol_down_alt-IsValid, volume_slide_alt-IsValid, slow_slide-IsValid, arpeggio-IsValid,
}
use adplug.Protrack.Timer.Arpeggio.{special_arpeggio-IsValid}

module _ (s : Shape) (fuel : ℕ) where
  abbrev V : Mod → Type 0
  V = IsValid s fuel

  abbrev R : Outcome Mod → Type 0
  R = Returns V

  timer_effect-IsValid : (chan : ℕ) → chan < s.chans → (p : Mod) → V p → R (timer_effect chan p)
  unfolding timer_effect
  timer_effect-IsValid chan h p v =
      let (c, ec, hc) = channel_at-ok s fuel chan h p v in
      let info = info_of p c in
      let fx = c.fx in
      let bends = bend-IsValid s fuel chan h in
      let slow = slow_slide-IsValid s fuel chan h c in
      let porta = tone_portamento-IsValid s fuel chan h c.portainfo p v in
      let vib = vibrato-IsValid s fuel chan h c.vibinfo1 c.vibinfo2 p v in
      let up = vol_up_alt-IsValid s fuel chan h in
      let down = vol_down_alt-IsValid s fuel chan h in
      let notes =
        if_both R (c.info1 == 3 && p.del % (c.info2 + 1) == 0) _ _
          (playnote-IsValid s fuel chan h p v) v in
      let rad = if_both R (ltb info 50) _ _ (down info p v) (up (info - 50) p v) in
      let after_20 =
        if_both R (fx == 26) _ _ (volume_slide-IsValid s fuel chan h c p v)
          (if_both R (fx == 28) _ _ (bends _ (counted_slides-IsChannel s) p v) v) in
      let from_10 = if_both R (fx == 10) _ _ (slow p v) (
        if_both R (fx == 14) _ _ notes (
          if_both R (fx == 16) _ _
            (if_both R (p.del % 4 == 0) _ _ (volume_slide_alt-IsValid s fuel chan h c p v) v)
            (if_both R (fx == 20) _ _ rad after_20))) in
      let from_3 = if_both R (fx == 3) _ _ porta (
        if_both R (fx == 4) _ _ vib (
          if_both R (fx == 5) _ _
            (Returns-bind V V (tone_portamento chan c.portainfo p) _ porta slow)
            (if_both R (fx == 6) _ _
              (Returns-bind V V (vibrato chan c.vibinfo1 c.vibinfo2 p) _ vib slow) from_10))) in
      rw ec (
        if_both R (fx == 0) _ _
          (if_both R (info == 0) _ _ v (arpeggio-IsValid s fuel chan h c p hc v))
          (if_both R (fx == 1) _ _ (bends _ (slide_up-IsChannel s info) p v)
            (if_both R (fx == 2) _ _ (bends _ (slide_down-IsChannel s info) p v) from_3)))

  -- The effects of all channels from `chan` on.
  pub timer_effects-IsValid :
      (n chan : ℕ) (p : Mod) → chan + n ≤ s.chans → V p → R (timer_effects n chan p)
  unfolding timer_effects
  timer_effects-IsValid zero chan p inside v = v
  timer_effects-IsValid (suc n) chan p inside v =
      let h : chan < s.chans = omega arith in
      Returns-bind V V (special_arpeggio chan (set_opl_chip chan p)) _
        (special_arpeggio-IsValid s fuel chan h _ (set_opl_chip-IsValid s fuel chan p v))
        (λ p1 v1.
          Returns-bind V V (timer_effect chan p1) _ (timer_effect-IsValid chan h p1 v1)
            (λ p2 v2. timer_effects-IsValid n (chan + 1) p2 (omega arith) v2))
