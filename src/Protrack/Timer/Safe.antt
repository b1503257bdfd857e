-- ===== src/Protrack/Timer/Safe.antt =====
-- src/protrack.cpp: the effects on a channel's pitch and volume stay inside of the player's arrays.
use adplug.Base.{ℕ, ◌+◌, ◌%◌, ◌<◌}
use adplug.Base.{◌==◌, ltb}
use adplug.Base.{if◌then◌else◌, if_both, arith, Outcome, Returns, Returns-bind}
use adplug.Protrack.{Instrument, Channel, Mod, set_channel, modify_by}
use adplug.Protrack.{setnote}
use adplug.Protrack.{tone_portamento}
use adplug.Protrack.Timer.{vibrato_steps, vibrato, bend, fade, vol_up, vol_down, vol_up_alt}
use adplug.Protrack.Timer.{vol_down_alt}
use adplug.Protrack.Timer.{arpeggio, volume_slide}
use adplug.Protrack.Timer.{volume_slide_alt, slow_slide}
use adplug.Protrack.Safety.{Shape, IsChannel, IsValid, channel_at-ok}
use adplug.Protrack.Safety.{set_channel-IsValid}
use adplug.Protrack.Safety.{modify_by-IsValid, setvolume-IsValid, setfreq-IsValid, modify-setfreq}
use adplug.Protrack.Safety.{setnote-IsValid}
use adplug.Protrack.Safety.Keeps.{portamento-IsChannel}
use adplug.Protrack.Timer.Keeps.{vibrato_steps-IsChannel}

module _ (s : Shape) (fuel chan : ℕ) (h : chan < s.chans) where
  abbrev V : Mod → Type 0
  V = IsValid s fuel

  abbrev R : Outcome Mod → Type 0
  R = Returns V

  pub bend-IsValid :
      (f : Channel → Channel)
      → ((c : Channel) → IsChannel s c → IsChannel s (f c))
      → (p : Mod) → V p
      → R (bend chan f p)
  unfolding bend
  bend-IsValid f keep p v = modify-setfreq s fuel chan h f keep p v

  pub fade-IsValid :
      (f : Instrument → Channel → Channel)
      → ((i : Instrument) (c : Channel) → IsChannel s c → IsChannel s (f i c))
      → (p : Mod) → V p
      → R (fade chan f p)
  unfolding fade
  fade-IsValid f keep p v =
      Returns-bind V V (modify_by chan f p) _
        (modify_by-IsValid s fuel chan h f (λ i c hi. keep i c) p v)
        (setvolume-IsValid s fuel chan h)

  pub tone_portamento-IsValid : (info : ℕ) (p : Mod) → V p → R (tone_portamento chan info p)
  unfolding tone_portamento
  tone_portamento-IsValid info p v =
      modify-setfreq s fuel chan h _ (portamento-IsChannel s info) p v

  pub vibrato-IsValid : (speed depth : ℕ) (p : Mod) → V p → R (vibrato chan speed depth p)
  unfolding vibrato
  vibrato-IsValid speed depth p v =
      let (c, ec, hc) = channel_at-ok s fuel chan h p v in
      if_both R (speed == 0) _ _ v (
        if_both R (depth == 0) _ _ v (
          rw ec (
            Returns-bind (IsChannel s) V (vibrato_steps speed _ c) _
              (vibrato_steps-IsChannel s speed _ c hc)
              (λ c1 h1.
                setfreq-IsValid s fuel chan h (set_channel chan c1 p)
                  (set_channel-IsValid s fuel chan c1 p h1 v)))))

  pub volume_slide-IsValid : (c : Channel) (p : Mod) → V p → R (volume_slide chan c p)
  unfolding volume_slide vol_up vol_down
  volume_slide-IsValid c p v =
      if_both R (c.info1 == 0) _ _ (fade-IsValid _ (λ i c hc. hc) p v)
        (fade-IsValid _ (λ i c hc. hc) p v)

  pub vol_up_alt-IsValid : (amount : ℕ) (p : Mod) → V p → R (fade chan (vol_up_alt amount) p)
  unfolding vol_up_alt
  vol_up_alt-IsValid amount p v = fade-IsValid _ (λ i c hc. hc) p v

  pub vol_down_alt-IsValid : (amount : ℕ) (p : Mod) → V p → R (fade chan (vol_down_alt amount) p)
  unfolding vol_down_alt
  vol_down_alt-IsValid amount p v = fade-IsValid _ (λ i c hc. hc) p v

  pub volume_slide_alt-IsValid : (c : Channel) (p : Mod) → V p → R (volume_slide_alt chan c p)
  unfolding volume_slide_alt
  volume_slide_alt-IsValid c p v =
      if_both R (c.info1 == 0) _ _ (vol_down_alt-IsValid c.info2 p v)
        (vol_up_alt-IsValid c.info1 p v)

  pub slow_slide-IsValid : (c : Channel) (p : Mod) → V p → R (slow_slide chan c p)
  unfolding slow_slide
  slow_slide-IsValid c p v = if_both R (p.del % 4 == 0) _ _ (volume_slide-IsValid c p v) v

  pub arpeggio-IsValid : (c : Channel) (p : Mod) → IsChannel s c → V p → R (arpeggio chan c p)
  unfolding arpeggio
  arpeggio-IsValid c p (hi, ht, ha) v =
      let t : ℕ = if ltb c.trigger 2 then c.trigger + 1 else 0 in
      let small : t < 64 = ground arith in
      Returns-bind V V (setnote chan _ _) _
        (setnote-IsValid s fuel chan h _ _
          (set_channel-IsValid s fuel chan (record c { trigger = t }) p (hi, small, ha) v))
        (setfreq-IsValid s fuel chan h)
