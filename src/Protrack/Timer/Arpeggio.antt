-- ===== src/Protrack/Timer/Arpeggio.antt =====
-- src/protrack.cpp: the special arpeggios stay inside of their lists and of the player's arrays.
use adplug.Base.{ℕ, ◌+◌, ◌-◌, ◌/◌, ◌%◌, ◌^◌, ◌<◌, ◌≡◌, List, get_elem?}
use adplug.Base.{All-get_elem?, get_elem?-of_lt, Option, some, none, ◌==◌, ltb, leb}
use adplug.Base.{if◌then◌else◌, if_both, arith, Outcome, Returns, Returns-bind}
use adplug.Protrack.{Channel, Mod}
use adplug.Protrack.{setfreq, setnote}
use adplug.Protrack.{write_reg}
use adplug.Protrack.Timer.{arp_waveforms, arp_command, arp_note, arp_next}
use adplug.Protrack.Timer.{arp_step, arp_channel, arp_lists, special_arpeggio}
use adplug.Protrack.Timer.{}
use adplug.Protrack.Safety.{Shape, IsArp, IsChannel, IsValid, channel_at-ok, inst_at-ok, op_at-ok}
use adplug.Protrack.Safety.{set_channel-IsValid}
use adplug.Protrack.Safety.{setfreq-IsValid}
use adplug.Protrack.Safety.{setnote-IsValid}
use adplug.Protrack.Timer.Safe.{bend-IsValid, fade-IsValid}

module _ (s : Shape) (fuel chan : ℕ) (h : chan < s.chans) where
  abbrev V : Mod → Type 0
  V = IsValid s fuel

  abbrev R : Outcome Mod → Type 0
  R = Returns V

  arp_waveforms-IsValid : (op cmd : ℕ) (p : Mod) → V p → V (arp_waveforms op cmd p)
  unfolding arp_waveforms
  arp_waveforms-IsValid op cmd p v =
      let p1 = if cmd / 10 == 0 then p else write_reg (0xe3 + op) (cmd / 10 - 1) p in
      let v1 : V p1 = if_both V (cmd / 10 == 0) _ _ v v in
      let p2 = if cmd % 10 == 0 then p1 else write_reg (0xe0 + op) (cmd % 10 - 1) p1 in
      let v2 : V p2 = if_both V (cmd % 10 == 0) _ _ v1 v1 in
      if_both V (cmd == 0) _ _ v (if_both V (ltb cmd 10) _ _ v2 v2)

  module _ (list : List ℕ) (listed : IsArp (some list)) where
    arp_at :
        (c : Channel) → IsChannel s c → (v : ℕ) × (get_elem? list c.arppos ≡ some v) × (v < 256)
    arp_at c (hi, ht, ha) =
        let (v, e) = get_elem?-of_lt list c.arppos (omega (arith, listed.0)) in
        (v, e, All-get_elem? _ list c.arppos v listed.1 e)

    arp_command-IsValid : (cmd : ℕ) (p : Mod) → V p → R (arp_command list chan cmd p)
    unfolding arp_command
    arp_command-IsValid cmd p v =
        let (c, ec, hc) = channel_at-ok s fuel chan h p v in
        let (b, eb, hb) = arp_at c hc in
        if_both R (cmd == 252) _ _ (rw (ec, eb) (fade-IsValid s fuel chan h _ (λ i c hc. hc) p v)) (
          if_both R (cmd == 253) _ _ (bend-IsValid s fuel chan h _ (λ c hc. hc) p v) (
            if_both R (cmd == 254) _ _
              (rw (ec, eb, Returns)
                (set_channel-IsValid s fuel chan (record c { arppos = b }) p (hc.0, hc.1, hb) v))
              (rw ((op_at-ok s fuel chan).1, Returns) (arp_waveforms-IsValid _ cmd p v))))

    arp_note-IsValid : (note v : ℕ) (p : Mod) → V p → R (arp_note chan note v p)
    unfolding arp_note
    arp_note-IsValid note v p w =
        if_both R (leb v 96) _ _ (setnote-IsValid s fuel chan h (note + v) p w)
          (if_both R (leb 100 v) _ _ (setnote-IsValid s fuel chan h (v - 100) p w) w)

module _ (s : Shape) (fuel chan : ℕ) (h : chan < s.chans) (list cmds : List ℕ)
    (listed : IsArp (some list)) (commands : IsArp (some cmds)) where
  arp_next-IsValid : (p : Mod) → IsValid s fuel p → Returns (IsValid s fuel) (arp_next cmds chan p)
  unfolding arp_next
  arp_next-IsValid p v =
      let (c, ec, hc) = channel_at-ok s fuel chan h p v in
      let (cmd, em, hm) = arp_at s fuel chan h cmds commands c hc in
      let (i, ei, hi) = inst_at-ok s fuel c.inst hc.0 p v in
      let next : ℕ = if cmd == 255 then c.arppos else (c.arppos + 1) % 2 ^ 8 in
      let inside : next < 256 = if_both (λ (n : ℕ). n < 256) (cmd == 255) _ _ hc.2 (omega arith) in
      rw (ec, em, ei, Returns)
        (set_channel-IsValid s fuel chan (record c { arppos = next; arpspdcnt = _ }) p
          (hc.0, hc.1, inside) v)

  arp_step-IsValid :
      (cmd : ℕ) (p : Mod)
      → IsValid s fuel p
      → Returns (IsValid s fuel) (arp_step list cmds chan cmd p)
  unfolding arp_step
  arp_step-IsValid cmd p v =
      let V = IsValid s fuel in
      Returns-bind V V (arp_command list chan cmd p) _
        (arp_command-IsValid s fuel chan h list listed cmd p v)
        (λ p1 v1.
          let (c, ec, hc) = channel_at-ok s fuel chan h p1 v1 in
          let (cmd1, em, hm) = arp_at s fuel chan h cmds commands c hc in
          let (b, eb, hb) = arp_at s fuel chan h list listed c hc in
          rw (ec, em, eb)
            (Returns-bind V V
              (if cmd1 == 252 then setnote chan c.note p1 else arp_note chan c.note b p1) _
              (if_both (Returns V) (cmd1 == 252) _ _ (setnote-IsValid s fuel chan h c.note p1 v1)
                (arp_note-IsValid s fuel chan h list listed c.note b p1 v1))
              (λ p2 v2.
                Returns-bind V V (setfreq chan p2) _ (setfreq-IsValid s fuel chan h p2 v2)
                  arp_next-IsValid)))

  arp_channel-IsValid :
      (p : Mod) → IsValid s fuel p → Returns (IsValid s fuel) (arp_channel list cmds chan p)
  unfolding arp_channel
  arp_channel-IsValid p v =
      let R = Returns (IsValid s fuel) in
      let (c, ec, hc) = channel_at-ok s fuel chan h p v in
      let (i, ei, hi) = inst_at-ok s fuel c.inst hc.0 p v in
      let (cmd, em, hm) = arp_at s fuel chan h cmds commands c hc in
      rw (ec, ei, em)
        (if_both R (i.arpstart == 0) _ _ v (
          if_both R (c.arpspdcnt == 0) _ _ (if_both R (cmd == 255) _ _ v (arp_step-IsValid cmd p v))
            (set_channel-IsValid s fuel chan (record c { arpspdcnt = c.arpspdcnt - 1 }) p hc v)))

module _ (s : Shape) (fuel : ℕ) where
  pub arp_lists-IsValid :
      (chan : ℕ)
      → chan < s.chans
      → (arplist arpcmd : Option (List ℕ)) → IsArp arplist
      → IsArp arpcmd
      → (p : Mod) → IsValid s fuel p
      → Returns (IsValid s fuel) (arp_lists arplist arpcmd chan p)
  unfolding arp_lists
  arp_lists-IsValid chan h none arpcmd l m p v = v
  arp_lists-IsValid chan h (some list) none l m p v = v
  arp_lists-IsValid chan h (some list) (some cmds) l m p v =
      arp_channel-IsValid s fuel chan h list cmds l m p v

  pub special_arpeggio-IsValid :
      (chan : ℕ)
      → chan < s.chans
      → (p : Mod) → IsValid s fuel p
      → Returns (IsValid s fuel) (special_arpeggio chan p)
  unfolding special_arpeggio
  special_arpeggio-IsValid chan h p v =
      arp_lists-IsValid chan h p.arplist p.arpcmd v.0.lists v.0.commands p v
