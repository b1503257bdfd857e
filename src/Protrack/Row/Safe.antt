-- ===== src/Protrack/Row/Safe.antt =====
-- src/protrack.cpp: the entries of a row on one channel stay inside of the arrays of `CmodPlayer`.
use adplug.Base.{ℕ, ◌+◌, ◌-◌, ◌/◌, ◌<◌}
use adplug.Base.{get_elem?-of_lt, not, ◌&&◌, ◌==◌, leb, if◌then◌else◌}
use adplug.Base.{if_both, Bool-cases, inl, inr, arith, Outcome, Returns, Returns-bind}
use adplug.Protrack.{Instrument, Tracks, Channel, Mod, is_faust, modify}
use adplug.Protrack.{setnote, write_reg}
use adplug.Protrack.Timer.{info_of}
use adplug.Protrack.Row.{own_volumes, set_instrument, take_note}
use adplug.Protrack.Row.{portamento_to, note_place, set_portamento, set_vibrato, set_one_volume}
use adplug.Protrack.Row.{set_depth, extended_effect, sa2_speed, amd_speed}
use adplug.Protrack.Row.{set_waveforms, channel_effect}
use adplug.Protrack.Safety.{Shape, IsEntry, IsChannel, IsValid, op_at-ok}
use adplug.Protrack.Safety.{modify-IsValid, modify_by-IsValid, setnote-IsValid}
use adplug.Protrack.Safety.Keeps.{slide_up-IsChannel, slide_down-IsChannel}
use adplug.Protrack.Timer.Safe.{
  bend-IsValid, fade-IsValid, vol_up_alt-IsValid, vol_down_alt-IsValid,
}

module _ (s : Shape) (fuel : ℕ) where
  abbrev V : Mod → Type 0
  V = IsValid s fuel

  abbrev R : Outcome Mod → Type 0
  R = Returns V

  portamento_to-IsChannel :
      (f : ℕ) (t : Tracks) (info : ℕ) (c : Channel)
      → IsChannel s c
      → IsChannel s (portamento_to f t info c)
  unfolding portamento_to
  portamento_to-IsChannel f t info c h =
      let P = IsChannel s in
      let there = record c { nextfreq = f; nextoct = (t.note - 1) / 12 } in
      let here = record c { nextfreq = c.freq; nextoct = c.oct } in
      let c1 = if t.note == 0 then c else if t.note == 127 then here else there in
      let h1 : P c1 = if_both P (t.note == 0) _ _ h (if_both P (t.note == 127) here there h h) in
      if_both P (info == 0) c1 (record c1 { portainfo = info }) h1 h1

  set_one_volume-IsChannel : (c : Channel) → IsChannel s c → IsChannel s (set_one_volume c)
  unfolding set_one_volume
  set_one_volume-IsChannel c h = if_both (IsChannel s) (c.info1 == 0) _ _ h h

  note_place-lt : (note : ℕ) → note_place note < 12
  unfolding note_place
  note_place-lt note = ground arith

  sa2_speed-IsValid : (info : ℕ) (p : Mod) → V p → V (sa2_speed info p)
  unfolding sa2_speed
  sa2_speed-IsValid info p v =
      let p1 = if leb info 0x1f then (record p { speed = info }) else p in
      let v1 : V p1 = if_both V (leb info 0x1f) _ _ v v in
      let p2 = if leb 0x32 info then (record p1 { tempo = info }) else p1 in
      let v2 : V p2 = if_both V (leb 0x32 info) _ _ v1 v1 in if_both V (info == 0) _ _ v2 v2

  amd_speed-IsValid : (info : ℕ) (p : Mod) → V p → V (amd_speed info p)
  unfolding amd_speed
  amd_speed-IsValid info p v = if_both V (leb info 31 && not (info == 0)) _ _ v v

  set_depth-IsValid : (regbd : ℕ) (p : Mod) → V p → V (set_depth regbd p)
  unfolding set_depth
  set_depth-IsValid regbd p v = v

  set_waveforms-IsValid : (op : ℕ) (c : Channel) (p : Mod) → V p → V (set_waveforms op c p)
  unfolding set_waveforms
  set_waveforms-IsValid op c p v =
      let p1 = if c.info1 == 0x0f then p else write_reg (0xe3 + op) c.info1 p in
      let v1 : V p1 = if_both V (c.info1 == 0x0f) _ _ v v in if_both V (c.info2 == 0x0f) _ _ v1 v1

  module _ (chan : ℕ) (h : chan < s.chans) where
    pub set_instrument-IsValid :
        (t : Tracks) (p : Mod) → IsEntry s t → V p → R (set_instrument chan t p)
    unfolding set_instrument own_volumes
    set_instrument-IsValid t p entry v = elim (Bool-cases (t.inst == 0)) [
      | inl no_inst ↦ rw (no_inst, Returns) v
      | inr sets ↦
          let known : t.inst - 1 < s.insts = ground arith in
          rw sets (
            Returns-bind V V (modify chan (λ c. record c { inst = t.inst - 1 }) p) _
              (modify-IsValid s fuel chan h _ (λ c hc. (known, hc.1, hc.2)) p v)
              (λ p1 v1.
                if_both R (is_faust p1) _ _ v1
                  (fade-IsValid s fuel chan h own_volumes (λ i c hc. hc) p1 v1)))
    ]

    pub take_note-IsValid : (t : Tracks) (p : Mod) → V p → R (take_note chan t p)
    unfolding take_note
    take_note-IsValid t p v = if_both R (t.note == 0) _ _ v (
        if_both R (t.command == 3) _ _ v (
          Returns-bind V V (modify chan _ p) _ (modify-IsValid s fuel chan h _ (λ c hc. hc) p v)
            (λ p1 v1.
              Returns-bind V V (setnote chan t.note p1) _
                (setnote-IsValid s fuel chan h t.note p1 v1)
                (modify_by-IsValid s fuel chan h _ (λ i c hi hc. (hc.0, hc.1, hi))))))

    set_portamento-IsValid :
        (t : Tracks) (info : ℕ) (p : Mod) → V p → R (set_portamento chan t info p)
    unfolding set_portamento
    set_portamento-IsValid t info p v =
        let (f, e) =
          get_elem?-of_lt p.notetable (note_place t.note)
            (omega (arith, v.0.note_count, note_place-lt t.note)) in
        if_both R (t.note == 0) _ _
          (modify-IsValid s fuel chan h _ (portamento_to-IsChannel 0 t info) p v)
          (rw e (modify-IsValid s fuel chan h _ (portamento_to-IsChannel f t info) p v))

    extended_effect-IsValid : (c : Channel) (p : Mod) → V p → R (extended_effect chan c p)
    unfolding extended_effect
    extended_effect-IsValid c p v =
        let bends = bend-IsValid s fuel chan h in
        if_both R (c.info1 == 0) _ _ (set_depth-IsValid _ p v) (
          if_both R (c.info1 == 1) _ _ (set_depth-IsValid _ p v) (
            if_both R (c.info1 == 4) _ _ (vol_up_alt-IsValid s fuel chan h c.info2 p v) (
              if_both R (c.info1 == 5) _ _ (vol_down_alt-IsValid s fuel chan h c.info2 p v) (
                if_both R (c.info1 == 6) _ _ (bends _ (slide_up-IsChannel s c.info2) p v) (
                  if_both R (c.info1 == 7) _ _ (bends _ (slide_down-IsChannel s c.info2) p v) v)))))

    pub channel_effect-IsValid :
        (t : Tracks) (c : Channel) (p : Mod) → V p → R (channel_effect chan t c p)
    unfolding channel_effect set_vibrato
    channel_effect-IsValid t c p v =
        let fx = c.fx in
        let info = info_of p c in
        let fades =
          λ (f : Instrument → Channel → Channel)
              (keep : (i : Instrument) (c : Channel) → IsChannel s c → IsChannel s (f i c)).
            fade-IsValid s fuel chan h f keep p v in
        let bends = bend-IsValid s fuel chan h in
        let waves = set_waveforms-IsValid (op_at-ok s fuel chan).0 c p v in
        let from_23 = if_both R (fx == 23) _ _ (bends _ (slide_up-IsChannel s info) p v) (
          if_both R (fx == 24) _ _ (bends _ (slide_down-IsChannel s info) p v) (
            if_both R (fx == 25) _ _ (rw ((op_at-ok s fuel chan).1, Returns) waves)
              (if_both R (fx == 27) _ _ (set_depth-IsValid _ p v) v))) in
        let from_17 = if_both R (fx == 17) _ _ (fades _ (λ i c hc. hc)) (
          if_both R (fx == 18) _ _ (amd_speed-IsValid info p v) (
            if_both R (fx == 19) _ _ v (
              if_both R (fx == 21) _ _ (fades _ (λ i c hc. hc))
                (if_both R (fx == 22) _ _ (fades _ (λ i c hc. hc)) from_23)))) in
        let from_9 = if_both R (fx == 9) _ _ (fades _ (λ i. set_one_volume-IsChannel)) (
          if_both R (fx == 12) _ _ (fades _ (λ i c hc. hc)) (
            if_both R (fx == 14) _ _ (extended_effect-IsValid c p v)
              (if_both R (fx == 15) _ _ (sa2_speed-IsValid info p v) from_17))) in
        let vib =
          if_both R (info == 0) _ _ v (modify-IsValid s fuel chan h set_vibrato (λ c hc. hc) p v) in
        if_both R (fx == 3) _ _ (set_portamento-IsValid t info p v) (
          if_both R (fx == 4) _ _ vib
            (if_both R (fx == 7) _ _ v (if_both R (fx == 8) _ _ (bends _ (λ c hc. hc) p v) from_9)))
