-- ===== src/Players/Extensions.antt =====
-- src/players.cpp: the list of extensions in memory is a list of texts.
pub mod Lookup
pub mod Change
use adplug.Base.{
  ℕ, zero, suc, ◌+◌, ◌-◌, ◌≤◌, ◌<◌, ◌≡◌, ◌≢◌, refl, sym, ap, ◌∙◌, arith, List, [], ◌∷◌, ◌++◌,
}
use adplug.Base.{drop, length, get_elem?, Option, none, some, Bool, true, false, ◌&&◌, ◌==◌, All}
use adplug.Base.{if◌then◌else◌, Bool-cases, inl, inr, Outcome, ok, fault, stuck, ◌>>=◌, deref}
use adplug.Base.{length-append, Returns}
use adplug.Provider.{same_text}
use adplug.Players.{PlayerDesc, char_at, strlen, take_bytes, text_at, list_end, skip_texts}
use adplug.Players.{text_or_null, player_desc, copy_desc, add_extension, get_extension}
use mathlib.Core.List.{append_assoc}

-- A text that can stand in the list: it has a character and no null.
abbrev pub IsText : List ℕ → Type 0
IsText [] = ⊥
IsText (c ∷ cs) = All (λ (d : ℕ). d ≢ 0) (c ∷ cs)

-- The texts in memory, each with its null.
unfoldable pub texts : List (List ℕ) → List ℕ
texts [] = []
texts (e ∷ es) = e ++ (0 ∷ texts es)

-- How the list of texts stands in memory: an empty text ends it.
abbrev pub encode : List (List ℕ) → List ℕ
encode es = texts es ++ (0 ∷ [])

texts-cons :
    (e : List ℕ) (es : List (List ℕ)) (end : List ℕ)
    → texts (e ∷ es) ++ end ≡ e ++ (0 ∷ (texts es ++ end))
unfolding texts
texts-cons e es end = append_assoc e (0 ∷ texts es) end

length-texts : (es : List (List ℕ)) → length es ≤ length (texts es)
unfolding texts
length-texts [] = omega arith
length-texts (e ∷ es) = omega (arith, length-append e (0 ∷ texts es), length-texts es)

texts-snoc :
    (es : List (List ℕ)) (e : List ℕ) → texts (es ++ (e ∷ [])) ≡ texts es ++ (e ++ (0 ∷ []))
unfolding texts
texts-snoc [] e = refl
texts-snoc (d ∷ es) e = rw (texts-snoc es e) (sym (append_assoc d (0 ∷ texts es) (e ++ (0 ∷ []))))

strlen-append :
    (e rest : List ℕ) → All (λ (d : ℕ). d ≢ 0) e → strlen (e ++ (0 ∷ rest)) ≡ ok (length e)
unfolding strlen
strlen-append [] rest h = refl
strlen-append (c ∷ cs) rest (hc, hs) =
    let not_null : (c == 0) ≡ false = ground arith in
    rw (not_null, strlen) (rw (strlen-append cs rest hs))

drop_past : (e rest : List ℕ) → drop (suc (length e)) (e ++ (0 ∷ rest)) ≡ rest
drop_past [] rest = refl
drop_past (c ∷ cs) rest = drop_past cs rest

take_bytes-append : (e rest : List ℕ) → take_bytes (length e) (e ++ rest) ≡ ok e
unfolding take_bytes
take_bytes-append [] rest = refl
take_bytes-append (c ∷ cs) rest = rw (take_bytes-append cs rest)

-- From a text on, the byte there is not null, the text can be read, and the next one follows it.
record StartsWith (e rest i : List ℕ) : Type 0 where
  not_null : (c : ℕ) × (char_at i ≡ ok c) × ((c == 0) ≡ false)
  long : strlen i ≡ ok (length e)
  whole : text_at i ≡ ok e
  next : drop (length e + 1) i ≡ rest

text-StartsWith : (e rest : List ℕ) → IsText e → StartsWith e rest (e ++ (0 ∷ rest))
unfolding char_at text_at
text-StartsWith [] rest h = absurd h
text-StartsWith (c ∷ cs) rest (hc, hs) = record {
  not_null = (c, refl, ground arith);
  long = long;
  whole = rw long (take_bytes-append (c ∷ cs) (0 ∷ rest));
  next = next;
}
  where
    long : strlen ((c ∷ cs) ++ (0 ∷ rest)) ≡ ok (length (c ∷ cs))
    long = strlen-append (c ∷ cs) rest (hc, hs)

    next : drop (length (c ∷ cs) + 1) ((c ∷ cs) ++ (0 ∷ rest)) ≡ rest
    next =
        let more : length (c ∷ cs) + 1 ≡ suc (length (c ∷ cs)) = omega arith in
        rw more (drop_past (c ∷ cs) rest)

skip_texts-null : (n : ℕ) → skip_texts (suc n) (0 ∷ []) ≡ ok (0 ∷ [])
unfolding skip_texts char_at strlen
skip_texts-null n = refl

skip_texts-encode :
    (n : ℕ) (es : List (List ℕ))
    → All IsText es
    → skip_texts n (encode es) ≡ ok (encode (drop n es))
unfolding skip_texts
skip_texts-encode zero es h = refl
skip_texts-encode (suc n) [] h = unfold texts in skip_texts-null n
skip_texts-encode (suc n) (e ∷ es) (h, hs) =
    let s = text-StartsWith e (encode es) h in
    rw (texts-cons e es (0 ∷ []), s.not_null.1, s.long, s.not_null.2, s.next)
      (skip_texts-encode n es hs)

list_end-null :
    (fuel offset : ℕ) (junk : List ℕ) → list_end (suc fuel) (0 ∷ junk) offset ≡ ok offset
unfolding list_end char_at strlen
list_end-null fuel offset junk = refl

-- The loop stops at the empty text, whatever stands behind it.
list_end-texts :
    (fuel offset : ℕ) (es : List (List ℕ)) (junk : List ℕ)
    → All IsText es
    → length es < fuel
    → list_end fuel (texts es ++ (0 ∷ junk)) offset ≡ ok (offset + length (texts es))
unfolding list_end
list_end-texts zero offset es junk h enough = absurd (omega arith)
list_end-texts (suc fuel) offset [] junk h enough =
    let none_left : offset + 0 ≡ offset = omega arith in
    unfold texts in rw none_left (list_end-null fuel offset junk)
list_end-texts (suc fuel) offset (e ∷ es) junk (h, hs) enough =
    let s = text-StartsWith e (texts es ++ (0 ∷ junk)) h in
    let sum : offset + length e + 1 + length (texts es) ≡ offset + length (texts (e ∷ es)) =
      unfold texts in omega (arith, length-append e (0 ∷ texts es)) in
    rw (texts-cons e es (0 ∷ junk), s.not_null.1, s.long, s.not_null.2, s.next, ← sum)
      (list_end-texts fuel (offset + length e + 1) es junk hs (omega arith))

-- The first of the texts that are left.
text_or_null-encode :
    (es : List (List ℕ)) → All IsText es → text_or_null (encode es) ≡ ok (get_elem? es 0)
unfolding text_or_null
text_or_null-encode [] h = unfold texts char_at text_at strlen take_bytes in refl
text_or_null-encode (e ∷ es) (h, hs) =
    let s = text-StartsWith e (encode es) h in
    rw (texts-cons e es (0 ∷ []), s.not_null.1, s.whole, s.not_null.2) refl

get_elem?-drop {ℓ} : {A : Type ℓ} (n : ℕ) (xs : List A) → get_elem? (drop n xs) 0 ≡ get_elem? xs n
get_elem?-drop zero xs = refl
get_elem?-drop (suc n) [] = refl
get_elem?-drop (suc n) (x ∷ xs) = get_elem?-drop n xs

All-drop {ℓ κ} : {A : Type ℓ} (P : A → Type κ) (n : ℕ) (xs : List A) → All P xs → All P (drop n xs)
All-drop P zero xs h = h
All-drop P (suc n) [] h = h
All-drop P (suc n) (x ∷ xs) (h, hs) = All-drop P n xs hs

module _ {F : Type 0} where
  -- A description whose memory holds the given texts and nothing more.
  abbrev pub Lists : PlayerDesc F → List (List ℕ) → Type 0
  Lists pd es =
      All IsText es × (pd.extensions ≡ some (encode es)) × (pd.extlength ≡ length (encode es))

  -- The fuel of the searches.
  pub length-lt_extlength :
      (pd : PlayerDesc F) (es : List (List ℕ)) → Lists pd es → length es < pd.extlength
  length-lt_extlength pd es h =
      rw h.2 (omega (arith, length-append (texts es) (0 ∷ []), length-texts es))

  -- The `n`th text of the list, and null behind the last one.
  pub get_extension-encode :
      (pd : PlayerDesc F) (es : List (List ℕ)) (n : ℕ)
      → All IsText es
      → pd.extensions ≡ some (encode es)
      → get_extension pd n ≡ ok (get_elem? es n)
  unfolding get_extension
  get_extension-encode pd es n h e = simp (
    e,
    skip_texts-encode n es h,
    text_or_null-encode (drop n es) (All-drop IsText n es h),
    get_elem?-drop n es,
  )
