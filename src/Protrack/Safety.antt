-- ===== src/Protrack/Safety.antt =====
-- src/protrack.cpp: the invariant of `CmodPlayer`, and the operations on a channel under it.
pub mod Keeps
use adplug.Base.{ℕ, suc, ◌+◌, ◌-◌, ◌*◌, ◌/◌, ◌%◌, ◌≤◌, ◌<◌, ◌≡◌, refl, List, length, get_elem?, set}
use adplug.Base.{All, All-get_elem?, All-set, length-set, get_elem?-of_lt, Option, none, some}
use adplug.Base.{if◌then◌else◌, ltb, ◌==◌}
use adplug.Base.{if_both, arith, ok, ◌>>=◌, Returns, Returns-bind}
use adplug.Player.{op_table}
use adplug.Protrack.{Instrument, Tracks, Channel, Mod, is_faust, no_key_on, channel_at, inst_at}
use adplug.Protrack.{
  set_channel, write_reg, modify, modify_by, opl_channel, set_opl_chip, op_at, clip_note,
}
use adplug.Protrack.{setvolume_alt, setvolume, setfreq, playnote, setnote}

-- The sizes of the arrays.
pub record Shape : Type 0 where
  pub chans : ℕ
  pub rows : ℕ
  pub pats : ℕ
  pub insts : ℕ

-- The order list leads from a place to a pattern, or to a jump to itself, after fewer than `n` jumps.
pub data Lands (order : List ℕ) (pats : ℕ) : ℕ → ℕ → Type 0 where
  plays :
      {n ord e : ℕ}
      → get_elem? order ord ≡ some e
      → e < 128
      → e < pats
      → Lands order pats (suc n) ord
  loops :
      {n ord e : ℕ}
      → get_elem? order ord ≡ some e
      → 128 ≤ e
      → e - 128 ≡ ord
      → Lands order pats (suc n) ord
  leads :
      {n ord e : ℕ}
      → get_elem? order ord ≡ some e
      → 128 ≤ e
      → Lands order pats n (e - 128)
      → Lands order pats (suc n) ord

-- A list of a special arpeggio, where there is one.
abbrev pub IsArp : Option (List ℕ) → Type 0
IsArp none = Unit {0}
IsArp (some list) = (length list ≡ 256) × All (λ b. b < 256) list

module _ (s : Shape) where
  abbrev pub IsEntry : Tracks → Type 0
  IsEntry t = t.inst ≤ s.insts

  abbrev pub IsTrack : List Tracks → Type 0
  IsTrack rows = (length rows ≡ s.rows) × All IsEntry rows

  abbrev pub IsPattern : ℕ → List ℕ → Type 0
  IsPattern n pattern = (length pattern ≡ s.chans) × All (λ track. track ≤ n) pattern

  abbrev pub IsChannel : Channel → Type 0
  IsChannel c = (c.inst < s.insts) × (c.trigger < 64) × (c.arppos < 256)

  -- The song's data, which playing does not change.
  pub record HasSong (fuel : ℕ) (inst : List Instrument) (tracks : List (List Tracks))
      (order : List ℕ) (arplist arpcmd : Option (List ℕ)) (trackord : List (List ℕ))
      (orders restartpos : ℕ) (notetable : List ℕ) (nrows nchans : ℕ) : Type 0 where
    pub inst_count : length inst ≡ s.insts
    pub arpstarts : All (λ (i : Instrument). i.arpstart < 256) inst
    pub whole_tracks : All IsTrack tracks
    pub pattern_count : length trackord ≡ s.pats
    pub whole_patterns : All (IsPattern (length tracks)) trackord
    pub lists : IsArp arplist
    pub commands : IsArp arpcmd
    pub lands : (ord : ℕ) → ord < orders → Lands order s.pats fuel ord
    pub restarts : (e : ℕ) × (get_elem? order restartpos ≡ some e) × (e < s.pats)
    pub note_count : length notetable ≡ 12
    pub row_count : nrows ≡ s.rows
    pub some_row : 0 < s.rows
    pub channel_count : nchans ≡ s.chans
    pub few_channels : s.chans ≤ 32

  -- What changes while the song plays.
  pub record HasPlace (channel : List Channel) (row : ℕ) : Type 0 where
    pub channels : length channel ≡ s.chans
    pub each : All IsChannel channel
    pub inside : row < s.rows

  module _ (fuel : ℕ) where
    abbrev pub IsValid : Mod → Type 0
    IsValid p =
        HasSong fuel p.inst p.tracks p.order p.arplist p.arpcmd p.trackord p.length p.restartpos
          p.notetable p.nrows p.nchans
        × HasPlace p.channel p.row

    pub channel_at-ok :
        (chan : ℕ)
        → chan < s.chans
        → (p : Mod) → IsValid p
        → (c : Channel) × (channel_at p chan ≡ ok c) × IsChannel c
    unfolding channel_at
    channel_at-ok chan h p (song, place) =
        let (c, e) = get_elem?-of_lt p.channel chan (omega (arith, place.channels)) in
        (c, rw e, All-get_elem? IsChannel p.channel chan c place.each e)

    pub inst_at-ok :
        (i : ℕ)
        → i < s.insts
        → (p : Mod) → IsValid p
        → (ins : Instrument) × (inst_at p i ≡ ok ins) × (ins.arpstart < 256)
    unfolding inst_at
    inst_at-ok i h p (song, place) =
        let (ins, e) = get_elem?-of_lt p.inst i (omega (arith, song.inst_count)) in
        (ins, rw e, All-get_elem? _ p.inst i ins song.arpstarts e)

    pub op_at-ok : (chan : ℕ) → (op : ℕ) × (get_elem? op_table (opl_channel chan) ≡ some op)
    op_at-ok chan = get_elem?-of_lt op_table (opl_channel chan) (omega arith)

    pub set_channel-IsValid :
        (chan : ℕ) (c : Channel) (p : Mod)
        → IsChannel c
        → IsValid p
        → IsValid (set_channel chan c p)
    set_channel-IsValid chan c p h (song, place) = (
      song,
      record {
        channels = omega (arith, length-set p.channel chan c, place.channels);
        each = All-set IsChannel p.channel chan c h place.each;
        inside = place.inside;
      },
    )

    pub set_opl_chip-IsValid : (chan : ℕ) (p : Mod) → IsValid p → IsValid (set_opl_chip chan p)
    unfolding set_opl_chip
    set_opl_chip-IsValid chan p v =
        let newchip : ℕ = if ltb chan 9 then 0 else 1 in
        if_both IsValid (newchip == p.curchip) _ _ v v

    module _ (chan : ℕ) (h : chan < s.chans) where
      pub modify-IsValid :
          (f : Channel → Channel)
          → ((c : Channel) → IsChannel c → IsChannel (f c))
          → (p : Mod) → IsValid p
          → Returns IsValid (modify chan f p)
      unfolding modify
      modify-IsValid f keep p v =
          let (c, ec, hc) = channel_at-ok chan h p v in
          rw (ec, Returns) (set_channel-IsValid chan (f c) p (keep c hc) v)

      pub modify_by-IsValid :
          (f : Instrument → Channel → Channel)
          → ((i : Instrument) (c : Channel) → i.arpstart < 256 → IsChannel c → IsChannel (f i c))
          → (p : Mod) → IsValid p
          → Returns IsValid (modify_by chan f p)
      unfolding modify_by
      modify_by-IsValid f keep p v =
          let (c, ec, hc) = channel_at-ok chan h p v in
          let (i, ei, hi) = inst_at-ok c.inst hc.0 p v in
          rw (ec, ei, Returns) (set_channel-IsValid chan (f i c) p (keep i c hi hc) v)

      setvolume_alt-IsValid : (p : Mod) → IsValid p → Returns IsValid (setvolume_alt chan p)
      unfolding setvolume_alt
      setvolume_alt-IsValid p v =
          let q = set_opl_chip chan p in
          let w = set_opl_chip-IsValid chan p v in
          let (c, ec, hc) = channel_at-ok chan h q w in
          let (i, ei, hi) = inst_at-ok c.inst hc.0 q w in rw (ec, ei, (op_at-ok chan).1, Returns) w

      pub setvolume-IsValid : (p : Mod) → IsValid p → Returns IsValid (setvolume chan p)
      unfolding setvolume
      setvolume-IsValid p v =
          let q = set_opl_chip chan p in
          let w = set_opl_chip-IsValid chan p v in
          let (c, ec, hc) = channel_at-ok chan h q w in
          let (i, ei, hi) = inst_at-ok c.inst hc.0 q w in
          if_both (Returns IsValid) (is_faust q) _ _ (setvolume_alt-IsValid q w)
            (rw (ec, ei, (op_at-ok chan).1, Returns) w)

      pub setfreq-IsValid : (p : Mod) → IsValid p → Returns IsValid (setfreq chan p)
      unfolding setfreq
      setfreq-IsValid p v =
          let q = set_opl_chip chan p in
          let w = set_opl_chip-IsValid chan p v in
          let (c, ec, hc) = channel_at-ok chan h q w in rw (ec, Returns) w

      -- What changes the pitch or the volume, and writes it.
      pub modify-setfreq :
          (f : Channel → Channel)
          → ((c : Channel) → IsChannel c → IsChannel (f c))
          → (p : Mod) → IsValid p
          → Returns IsValid (modify chan f p >>= setfreq chan)
      modify-setfreq f keep p v =
          Returns-bind IsValid IsValid (modify chan f p) _ (modify-IsValid f keep p v)
            setfreq-IsValid

      pub setnote-IsValid : (note : ℕ) (p : Mod) → IsValid p → Returns IsValid (setnote chan note p)
      unfolding setnote
      setnote-IsValid note p v =
          let (f, ef) =
            get_elem?-of_lt p.notetable ((clip_note note - 1) % 12)
              (omega (arith, v.0.note_count)) in
          if_both (Returns IsValid) (note == 127) _ _ (modify-setfreq _ (λ c hc. hc) p v)
            (rw ef (modify_by-IsValid _ (λ i c hi hc. hc) p v))

      pub playnote-IsValid : (p : Mod) → IsValid p → Returns IsValid (playnote chan p)
      unfolding playnote
      playnote-IsValid p v =
          let R = Returns IsValid in
          let q = set_opl_chip chan p in
          let w = set_opl_chip-IsValid chan p v in
          let (c, ec, hc) = channel_at-ok chan h q w in
          let q1 = if no_key_on q then q else write_reg (0xb0 + opl_channel chan) 0 q in
          let w1 : IsValid q1 = if_both IsValid (no_key_on q) _ _ w w in
          let (i, ei, hi) = inst_at-ok c.inst hc.0 q1 w1 in
          rw ((op_at-ok chan).1, ec, ei)
            (Returns-bind IsValid IsValid (modify chan _ _) _ (modify-IsValid _ (λ c hc. hc) _ w1)
              (λ p3 v3.
                Returns-bind IsValid IsValid (setfreq chan p3) _ (setfreq-IsValid p3 v3) (λ p4 v4.
                  Returns-bind IsValid IsValid (if is_faust p4 then modify chan _ p4 else ok p4) _
                    (if_both R (is_faust p4) _ _ (modify-IsValid _ (λ c hc. hc) p4 v4) v4)
                    setvolume-IsValid)))
