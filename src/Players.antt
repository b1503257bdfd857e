-- ===== src/Players.antt =====
-- src/players.cpp and src/players.h: the descriptions of the players and the searches through them.
-- A `char *` is the memory from there on; reading on behind its end is a fault. A list of extensions
-- is one text after the other, each with its null, and an empty text at the end.
mod Tests
pub mod Extensions
use adplug.Base.{ℕ, zero, suc, ◌+◌, ◌-◌, List, [], ◌∷◌, ◌++◌, drop, length, Option, none, some}
use adplug.Base.{
  Bool, true, false, ◌&&◌, ◌==◌, if◌then◌else◌, Outcome, ok, fault, stuck, ◌>>=◌, deref,
}
use adplug.Provider.{same_text}

-- `Factory` is a function pointer, null in the entry that ends a table.
pub record PlayerDesc (F : Type 0) : Type 0 where
  pub factory : Option F
  pub filetype : List ℕ
  pub extensions : Option (List ℕ)
  pub extlength : ℕ

-- `*i`
pub char_at : List ℕ → Outcome ℕ
char_at [] = fault
char_at (c ∷ cs) = ok c

pub strlen : List ℕ → Outcome ℕ
strlen [] = fault
strlen (c ∷ cs) = elim (c == 0) [ true ↦ ok 0 | false ↦ do n ← strlen cs; ok (suc n) ]

-- The first `n` bytes, all of which must be there.
pub take_bytes : ℕ → List ℕ → Outcome (List ℕ)
take_bytes zero xs = ok []
take_bytes (suc n) [] = fault
take_bytes (suc n) (x ∷ xs) = do rest ← take_bytes n xs; ok (x ∷ rest)

-- The C string at `i`, without its null.
pub text_at : List ℕ → Outcome (List ℕ)
text_at i = do n ← strlen i; take_bytes n i

-- `while(*i) i += strlen(i) + 1;` and the offset that it comes to, with fuel.
pub list_end : ℕ → List ℕ → ℕ → Outcome ℕ
list_end zero i offset = stuck
list_end (suc fuel) i offset = do
  c ← char_at i
  n ← strlen i
  let rest = list_end fuel (drop (n + 1) i) (offset + n + 1)
  if c == 0 then ok offset else rest

-- `for(j = 0; j < n && (*i); j++, i += strlen(i) + 1) ;`
pub skip_texts : ℕ → List ℕ → Outcome (List ℕ)
skip_texts zero i = ok i
skip_texts (suc n) i = do
  c ← char_at i
  k ← strlen i
  let rest = skip_texts n (drop (k + 1) i)
  if c == 0 then ok i else rest

-- `(*i != '\0' ? i : 0)`
pub text_or_null : List ℕ → Outcome (Option (List ℕ))
text_or_null i = do c ← char_at i; text ← text_at i; ok (if c == 0 then none else some text)

-- `filetype == ftype`, on std::strings.
pub same_string : List ℕ → List ℕ → Bool
same_string [] [] = true
same_string [] (c ∷ cs) = false
same_string (c ∷ cs) [] = false
same_string (c ∷ cs) (d ∷ ds) = c == d && same_string cs ds

module _ {F : Type 0} where
  -- `CPlayerDesc::CPlayerDesc()`
  abbrev pub no_player : PlayerDesc F
  no_player = record { factory = none; filetype = []; extensions = none; extlength = 0 }

  -- `CPlayerDesc::CPlayerDesc(f, type, ext)`
  pub player_desc : F → List ℕ → List ℕ → Outcome (PlayerDesc F)
  player_desc f type ext = do
    last ← list_end (suc (length ext)) ext 0
    extensions ← take_bytes (last + 1) ext
    ok (record {
      factory = some f;
      filetype = type;
      extensions = some extensions;
      extlength = last + 1;
    })

  -- `CPlayerDesc(const CPlayerDesc &)`
  pub copy_desc : PlayerDesc F → Outcome (PlayerDesc F)
  copy_desc pd = elim pd.extensions [
    | none ↦ ok pd
    | some bytes ↦ do
      copied ← take_bytes pd.extlength bytes
      ok (record pd { extensions = some copied })
  ]

  -- The text goes over the last null of the list, which must be there.
  pub add_extension : PlayerDesc F → List ℕ → Outcome (PlayerDesc F)
  add_extension pd ext = do
    added ← text_at ext
    bytes ← deref pd.extensions
    kept ← elim pd.extlength [ zero ↦ fault | suc n ↦ take_bytes n bytes ]
    ok (record pd {
      extensions = some (kept ++ (added ++ (0 ∷ 0 ∷ [])));
      extlength = pd.extlength + length added + 1;
    })

  pub get_extension : PlayerDesc F → ℕ → Outcome (Option (List ℕ))
  get_extension pd n = do bytes ← deref pd.extensions; i ← skip_texts n bytes; text_or_null i

  pub lookup_filetype : List (PlayerDesc F) → List ℕ → Option (PlayerDesc F)
  lookup_filetype [] ftype = none
  lookup_filetype (pd ∷ pl) ftype =
      if same_string pd.filetype ftype then some pd else lookup_filetype pl ftype

  -- `for(j = 0; get_extension(j); j++) if(!stricmp(…)) return …;` for one player, with fuel.
  pub has_extension : ℕ → ℕ → PlayerDesc F → List ℕ → Outcome Bool
  has_extension zero j pd extension = stuck
  has_extension (suc fuel) j pd extension = do
    ext ← get_extension pd j
    let more = has_extension fuel (j + 1) pd extension
    elim ext [ none ↦ ok false | some e ↦ if same_text extension e then ok true else more ]

  -- A list of extensions has fewer texts than bytes.
  pub lookup_extension : List (PlayerDesc F) → List ℕ → Outcome (Option (PlayerDesc F))
  lookup_extension [] extension = ok none
  lookup_extension (pd ∷ pl) extension = do
    found ← has_extension pd.extlength 0 pd extension
    let rest = lookup_extension pl extension
    if found then ok (some pd) else rest
