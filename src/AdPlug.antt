-- ===== src/AdPlug.antt =====
-- src/adplug.cpp: how a file gets its player. The players' own code comes in as a parameter.
mod Tests
pub mod Trials
use adplug.Base.{ℕ, zero, suc, ◌+◌, List, [], ◌∷◌, length, Option, none, some, Bool, true, false}
use adplug.Base.{if◌then◌else◌, Outcome, ok, fault, stuck, ◌>>=◌, deref}
use adplug.Provider.{extension}
use adplug.Players.{PlayerDesc, get_extension}

-- What `CAdPlug::factory` calls of a player: the factory function of its class, which may give no
-- object, its `load` and its destructor. `World` is all that these change: the chip, the log, the
-- files and the database.
pub record Engine (F : Type 0) : Type 1 where
  pub Player : Type 0
  pub World : Type 0
  pub create : F → World → Option Player × World
  pub load : List ℕ → Player → World → Bool × Player × World
  pub delete : Player → World → World

-- The table ends at an entry without a factory.
pub init_players : {F : Type 0} → List (PlayerDesc F) → Outcome (List (PlayerDesc F))
init_players [] = fault
init_players (pd ∷ rest) =
    let others = init_players rest in
    elim pd.factory [ none ↦ ok [] | some f ↦ do pl ← others; ok (pd ∷ pl) ]

-- `if(…) return p;`, and else what follows.
abbrev pub or_else :
    {P W : Type 0} → Option P × W → (W → Outcome (Option P × W)) → Outcome (Option P × W)
or_else (some p, w) next = ok (some p, w)
or_else (none, w) next = next w

module _ {F : Type 0} (engine : Engine F) (fn : List ℕ) where
  -- `if(p->load(fn, fp)) return p; else delete p;`
  pub judge : Bool × engine.Player × engine.World → Option engine.Player × engine.World
  judge (true, p, w) = (some p, w)
  judge (false, p, w) = (none, engine.delete p w)

  pub load_made : Option engine.Player × engine.World → Option engine.Player × engine.World
  load_made (none, w) = (none, w)
  load_made (some p, w) = judge (engine.load fn p w)

  -- `if((p = (*i)->factory(opl)))`
  pub attempt : F → engine.World → Option engine.Player × engine.World
  attempt f w = load_made (engine.create f w)

  pub call : PlayerDesc F → engine.World → Outcome (Option engine.Player × engine.World)
  call pd w = do f ← deref pd.factory; ok (attempt f w)

  -- `if(fp.extension(fn, (*i)->get_extension(j)))`, and what follows.
  pub try_hit :
      Bool
      → PlayerDesc F
      → engine.World
      → (engine.World → Outcome (Option engine.Player × engine.World))
      → Outcome (Option engine.Player × engine.World)
  try_hit true pd w next = do r ← call pd w; or_else r next
  try_hit false pd w next = next w

  -- The extensions of one player from the `j`th on, with fuel.
  pub direct_hits :
      ℕ → ℕ → PlayerDesc F → engine.World → Outcome (Option engine.Player × engine.World)
  direct_hits zero j pd w = stuck
  direct_hits (suc fuel) j pd w = do
    ext ← get_extension pd j
    elim ext [
      | none ↦ ok (none, w)
      | some e ↦ try_hit (extension fn e) pd w (λ w. direct_hits fuel (j + 1) pd w)
    ]

  -- Try a direct hit by file extension. A list of extensions has fewer texts than bytes.
  pub try_direct :
      List (PlayerDesc F) → engine.World → Outcome (Option engine.Player × engine.World)
  try_direct [] w = ok (none, w)
  try_direct (pd ∷ pl) w = do r ← direct_hits pd.extlength 0 pd w; or_else r (λ w. try_direct pl w)

  -- Try all players, one by one.
  pub try_each : List (PlayerDesc F) → engine.World → Outcome (Option engine.Player × engine.World)
  try_each [] w = ok (none, w)
  try_each (pd ∷ pl) w = do r ← call pd w; or_else r (λ w. try_each pl w)

  pub factory : List (PlayerDesc F) → engine.World → Outcome (Option engine.Player × engine.World)
  factory pl w = do r ← try_direct pl w; or_else r (λ w. try_each pl w)
