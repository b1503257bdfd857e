-- ===== src/Hsc/Safety.antt =====
-- src/hsc.cpp: the player's invariant, and the register helpers under it.
use adplug.Base.{ℕ, zero, suc, ◌+◌, ◌≤◌, ◌<◌, ◌≡◌, bit_and}
use adplug.Base.{List, length, get_elem?, set, All, All-get_elem?, All-set, length-set}
use mathlib.Core.Option.{Option}
use adplug.Base.{get_elem?-of_le, get_elem?-of_lt, ◌⊎◌, arith}
use adplug.Base.{ok, fault, Returns, Returns-bind, Returns-ok}
use adplug.Player.{op_table}
use adplug.Hsc.{Hsc, Note, Chan, Instrument, ins_at, instr_at, channel_at, setfreq}
use adplug.Hsc.{setvolume, instrument, setinstr, volumes, init_channels, rewind}

-- An entry that sets an instrument names one of the 128.
abbrev pub IsSafe : Note → Type 0
IsSafe n = (bit_and n.note 128 ≡ 0) ⊎ (n.effect < 128)

-- A pattern, and what its entries are known to be.
abbrev pub IsPattern : (Note → Type 0) → List Note → Type 0
IsPattern S pattern = (length pattern ≡ 576) × All S pattern

-- The song's data, which playing does not change.
pub record HasSong (S : Note → Type 0) (instr : List (List ℕ)) (song : List ℕ)
    (patterns : List (List Note)) : Type 0 where
  pub instr_count : length instr ≡ 128
  pub instr_sizes : All (λ (r : List ℕ). length r ≡ 12) instr
  pub song_size : length song ≡ 128
  pub pattern_count : length patterns ≡ 50
  pub pattern_sizes : All (IsPattern S) patterns

-- What changes while the song plays.
pub record HasPlace (channel : List Chan) (adl_freq : List ℕ) (pattpos songpos : ℕ) : Type 0 where
  pub channel_count : length channel ≡ 9
  pub insts : All (λ (c : Chan). c.inst < 128) channel
  pub adl_count : length adl_freq ≡ 9
  pub row : pattpos < 64
  pub order : songpos < 128

abbrev pub IsPlayer : (Note → Type 0) → Hsc → Type 0
IsPlayer S p =
    HasSong S p.instr p.song p.patterns × HasPlace p.channel p.adl_freq p.pattpos p.songpos

abbrev pub IsValid : Hsc → Type 0
IsValid = IsPlayer IsSafe

pub instr_at-ok :
    {S : Note → Type 0}
    → (p : Hsc) → HasSong S p.instr p.song p.patterns
    → (i k : ℕ) → i < 128
    → k < 12
    → (b : ℕ) × (instr_at p i k ≡ ok b)
unfolding instr_at ins_at
instr_at-ok p song i k hi hk =
    let (r, er) = get_elem?-of_lt p.instr i (omega (arith, song.instr_count)) in
    let width : length r ≡ 12 = All-get_elem? _ p.instr i r song.instr_sizes er in
    let (b, eb) = get_elem?-of_lt r k (omega arith) in (b, rw (er, eb))

pub channel_at-ok :
    {S : Note → Type 0}
    → (p : Hsc) → IsPlayer S p
    → (chan : ℕ) → chan < 9
    → (c : Chan) × (channel_at p chan ≡ ok c) × (c.inst < 128)
unfolding channel_at
channel_at-ok p (_, place) chan h =
    let (c, e) = get_elem?-of_lt p.channel chan (omega (arith, place.channel_count)) in
    (c, rw e, All-get_elem? _ p.channel chan c place.insts e)

pub op_table-ok : (chan : ℕ) → chan < 9 → (op : ℕ) × (get_elem? op_table chan ≡ Option.some op)
op_table-ok chan h = get_elem?-of_lt op_table chan (omega arith)

-- A channel may be given any freq and slide, and any instrument of the 128.
pub HasPlace-set_chan :
    (channel : List Chan) (adl_freq : List ℕ) (pattpos songpos chan : ℕ) (c : Chan)
    → c.inst < 128
    → HasPlace channel adl_freq pattpos songpos
    → HasPlace (set channel chan c) adl_freq pattpos songpos
HasPlace-set_chan channel adl_freq pattpos songpos chan c h place = record {
  channel_count = omega (arith, length-set channel chan c, place.channel_count);
  insts = All-set _ channel chan c h place.insts;
  adl_count = place.adl_count;
  row = place.row;
  order = place.order;
}

pub HasPlace-set_adl :
    (channel : List Chan) (adl_freq : List ℕ) (pattpos songpos chan a : ℕ)
    → HasPlace channel adl_freq pattpos songpos
    → HasPlace channel (set adl_freq chan a) pattpos songpos
HasPlace-set_adl channel adl_freq pattpos songpos chan a place = record {
  channel_count = place.channel_count;
  insts = place.insts;
  adl_count = omega (arith, length-set adl_freq chan a, place.adl_count);
  row = place.row;
  order = place.order;
}

pub HasPlace-move :
    (channel : List Chan) (adl_freq : List ℕ) (pattpos songpos row order : ℕ)
    → row < 64
    → order < 128
    → HasPlace channel adl_freq pattpos songpos
    → HasPlace channel adl_freq row order
HasPlace-move channel adl_freq pattpos songpos row order hr ho place = record {
  channel_count = place.channel_count;
  insts = place.insts;
  adl_count = place.adl_count;
  row = hr;
  order = ho;
}

pub setfreq-IsPlayer :
    {S : Note → Type 0}
    → (chan freq : ℕ) (p : Hsc) → IsPlayer S p
    → chan < 9
    → Returns (IsPlayer S) (setfreq chan freq p)
unfolding setfreq
setfreq-IsPlayer chan freq p (song, place) h =
    let (a, e) = get_elem?-of_lt p.adl_freq chan (omega (arith, place.adl_count)) in
    rw (e, Returns) (song, HasPlace-set_adl p.channel p.adl_freq p.pattpos p.songpos chan _ place)

pub setvolume-IsPlayer :
    {S : Note → Type 0}
    → (chan volc volm : ℕ) (p : Hsc) → IsPlayer S p
    → chan < 9
    → Returns (IsPlayer S) (setvolume chan volc volm p)
unfolding setvolume
setvolume-IsPlayer chan volc volm p v h =
    let (c, ec, hc) = channel_at-ok p v chan h in
    let (b2, e2) = instr_at-ok p v.0 c.inst 2 hc (omega arith) in
    let (b3, e3) = instr_at-ok p v.0 c.inst 3 hc (omega arith) in
    let (b8, e8) = instr_at-ok p v.0 c.inst 8 hc (omega arith) in
    let (op, eo) = op_table-ok chan h in rw (ec, e2, e3, e8, eo, Returns) v

pub instrument-Returns :
    {S : Note → Type 0}
    → (p : Hsc) → HasSong S p.instr p.song p.patterns
    → (i : ℕ) → i < 128
    → Returns (λ (ins : Instrument). Unit {0}) (instrument p i)
unfolding instrument
instrument-Returns p v i h =
    let read = λ (k : ℕ) (hk : k < 12). (instr_at-ok p v i k h hk).1 in
    rw
      (
        read 0 (omega arith),
        read 1 (omega arith),
        read 2 (omega arith),
        read 3 (omega arith),
        read 4 (omega arith),
        read 5 (omega arith),
        read 6 (omega arith),
        read 7 (omega arith),
        read 8 (omega arith),
        read 9 (omega arith),
        read 10 (omega arith),
        Returns,
      )
      tt

pub setinstr-IsPlayer :
    {S : Note → Type 0}
    → (chan insnr : ℕ) (p : Hsc) → IsPlayer S p
    → chan < 9
    → insnr < 128
    → Returns (IsPlayer S) (setinstr chan insnr p)
unfolding setinstr
setinstr-IsPlayer chan insnr p v h hi =
    let (c, ec, hc) = channel_at-ok p v chan h in
    let (op, eo) = op_table-ok chan h in
    let (ins, ei, _) = Returns-ok _ (instrument p insnr) (instrument-Returns p v.0 insnr hi) in
    rw (ec, eo, ei)
      (setvolume-IsPlayer chan (volumes ins).0 (volumes ins).1 _
        (v.0, HasPlace-set_chan p.channel p.adl_freq p.pattpos p.songpos chan _ hi v.1) h)

init_channels-IsPlayer :
    {S : Note → Type 0}
    → (n i : ℕ) (p : Hsc) → IsPlayer S p
    → i + n ≤ 9
    → Returns (IsPlayer S) (init_channels n i p)
unfolding init_channels
init_channels-IsPlayer zero i p v h = v
init_channels-IsPlayer {S = S} (suc n) i p v h =
    Returns-bind (IsPlayer S) (IsPlayer S) (setinstr i i p) _
      (setinstr-IsPlayer i i p v (omega arith) (omega arith))
      (λ q w. init_channels-IsPlayer n (i + 1) q w (omega arith))

-- A rewound player is valid if its song is; where it stood does not matter.
pub rewind-IsPlayer :
    {S : Note → Type 0} → (p : Hsc) → IsPlayer S p → Returns (IsPlayer S) (rewind p)
unfolding rewind
rewind-IsPlayer p (song, place) =
    init_channels-IsPlayer 9 0 _
      (
        song,
        record {
          channel_count = place.channel_count;
          insts = place.insts;
          adl_count = place.adl_count;
          row = omega arith;
          order = omega arith;
        },
      )
      (omega arith)

-- There is no instrument beyond the 128th.
pub instrument_beyond :
    {S : Note → Type 0} → (p : Hsc) → IsPlayer S p → (i : ℕ) → 128 ≤ i → instrument p i ≡ fault
unfolding instrument instr_at ins_at
instrument_beyond p v i h =
    let nothing : get_elem? p.instr i ≡ Option.none =
      get_elem?-of_le p.instr i (omega (arith, v.0.instr_count)) in
    rw nothing
