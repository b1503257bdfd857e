-- ===== src/Sixdepack.antt =====
-- src/sixdepack.cpp and src/sixdepack.h: `Sixdepak`, the adaptive Huffman decoder of packed AMD and
-- Adlib Tracker files, and its code tree. The arrays of the tree are functions whose accesses are
-- checked; before `inittree` they hold what the memory does.
pub mod Paths
pub mod Shape
pub mod Swap
pub mod Model
pub mod Decode
use adplug.Base.{ℕ, zero, suc, ◌+◌, ◌-◌, ◌*◌, ◌/◌, ◌%◌, ◌^◌, bit_and, bit_or, List, [], ◌∷◌}
use adplug.Base.{get_elem?, Bool, true, false, not, ◌&&◌, ◌||◌, ◌==◌, ltb, leb, if◌then◌else◌}
use adplug.Base.{Outcome, ok, stuck, fault, ◌>>=◌, deref, Option, none, some}
use adplug.Base.Loops.{Round, return_with, next_round, rounds}

abbrev pub maxchar : ℕ
maxchar = 1774

abbrev pub succmax : ℕ
succmax = 1775

abbrev pub twicemax : ℕ
twicemax = 3549

abbrev pub maxfreq : ℕ
maxfreq = 2000

abbrev pub codesperrange : ℕ
codesperrange = 253

pub record Tree : Type 0 where
  pub leftc : ℕ → ℕ
  pub rghtc : ℕ → ℕ
  pub dad : ℕ → ℕ
  pub freq : ℕ → ℕ

-- `a[i] = v`
abbrev pub put : ℕ → ℕ → (ℕ → ℕ) → ℕ → ℕ
put i v a j = if j == i then v else a j

-- Accesses to `leftc` and `rghtc`, and to `dad` and `freq`.
abbrev pub inner : ℕ → (ℕ → ℕ) → Outcome ℕ
inner i a = if ltb i succmax then ok (a i) else fault

abbrev pub node : ℕ → (ℕ → ℕ) → Outcome ℕ
node i a = if leb i twicemax then ok (a i) else fault

pub inittree : Tree → Tree
inittree t = record {
  dad = λ i. if leb 2 i && leb i twicemax then i / 2 else t.dad i;
  freq = λ i. if leb 2 i && leb i twicemax then 1 else t.freq i;
  leftc = λ i. if leb 1 i && leb i maxchar then 2 * i else t.leftc i;
  rghtc = λ i. if leb 1 i && leb i maxchar then 2 * i + 1 else t.rghtc i;
}

-- The other child of the parent of `a`.
pub sibling : ℕ → Tree → Outcome ℕ
sibling a t = do d ← node a t.dad; l ← inner d t.leftc; if l == a then inner d t.rghtc else ok l

-- `if(freq[ROOT] == MAXFREQ)` …
pub halve : Tree → Tree
halve t =
    if t.freq 1 == maxfreq
    then (record t { freq = λ i. if leb 1 i && leb i twicemax then t.freq i / 2 else t.freq i })
    else t

-- The loop up to the root, with fuel for each node on the way.
pub updatefreq : ℕ → ℕ → ℕ → Tree → Outcome Tree
updatefreq zero a b t = stuck
updatefreq (suc fuel) a b t = do
  d ← node a t.dad
  fa ← node a t.freq
  fb ← node b t.freq
  old ← node d t.freq
  let t1 = record t { freq = put d ((fa + fb) % 2 ^ 16) t.freq }
  if d == 1 then ok (halve t1) else (do c ← sibling d t1; updatefreq fuel d c t1)

-- `a` takes the place of `b`, the sibling of its parent `code1`, and `b` that of `a`. Returns the node
-- that is the sibling of `b` now.
pub swap : ℕ → ℕ → ℕ → ℕ → Tree → Outcome (ℕ × Tree)
swap a b code1 code2 t = do
  l2 ← inner code2 t.leftc
  let t1 =
      if l2 == code1
      then (record t { rghtc = put code2 a t.rghtc })
      else (record t { leftc = put code2 a t.leftc })
  l1 ← inner code1 t1.leftc
  r1 ← inner code1 t1.rghtc
  let t2 =
      if l1 == a
      then (record t1 { leftc = put code1 b t1.leftc })
      else (record t1 { rghtc = put code1 b t1.rghtc })
  da ← node a t2.dad
  db ← node b t2.dad
  ok (if l1 == a then r1 else l1, record t2 { dad = put a code2 (put b code1 t2.dad) })

pub promote : ℕ → ℕ → ℕ → ℕ → ℕ → Tree → Outcome (ℕ × Tree)
promote fuel a b code1 code2 t = do
  fa ← node a t.freq
  fb ← node b t.freq
  if ltb fb fa
      then (do (c, t1) ← swap a b code1 code2 t; t2 ← updatefreq fuel b c t1; ok (b, t2))
      else ok (a, t)

-- The loop of `updatemodel`, with a round for each node on the way to the root.
pub climb : ℕ → ℕ → ℕ → Tree → Outcome Tree
climb zero a code1 t = stuck
climb (suc fuel) a code1 t = do
  code2 ← node code1 t.dad
  b ← sibling code1 t
  (a1, t1) ← promote succmax a b code1 code2 t
  a2 ← node a1 t1.dad
  next ← node a2 t1.dad
  if next == 1 then ok t1 else climb fuel a2 next t1

pub updatemodel : ℕ → Tree → Outcome Tree
updatemodel code t = do
  let a = code + succmax
  f ← node a t.freq
  let t1 = record t { freq = put a ((f + 1) % 2 ^ 16) t.freq }
  code1 ← node a t1.dad
  if code1 == 1
      then ok t1
      else (do b ← sibling a t1; t2 ← updatefreq succmax a b t1; climb succmax a code1 t2)
