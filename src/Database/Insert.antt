-- ===== src/Database/Insert.antt =====
-- src/database.cpp: `insert` keeps the invariant, and adds its record to the map.
use adplug.Base.{ℕ, ◌+◌, ◌<◌, ◌≡◌, ◌≢◌, refl, sym, ap, ◌∙◌, arith, inl, inr}
use adplug.Base.{List, [], ◌∷◌, ◌++◌, length, get_elem?, set, Option, none, some, lt-of_get_elem?}
use adplug.Base.{get_elem?-snoc_lt, length-append, length-set}
use adplug.Base.{Bool-cases, Option-cases, ==_iff}
use adplug.Base.{true, false, ◌==◌, if◌then◌else◌, ok, Returns}
use adplug.Database.{Key, Record, Bucket, Db, make_hash, hit, key_eq, last_of, set_chain, update}
use adplug.Database.{add_bucket, hash_radix}
use adplug.Database.Chain.{IsNext, end, at, AreIndexed, AreLinked, hash_of, hash_at}
use adplug.Database.Link.{IsAdded, IsAdded-snoc, IsNext-added_some, IsNext-added_other}
use adplug.Database.Link.{hash_at-get, IsNext-none, end_unique}
use adplug.Database.Link.{
  IsNext-added_end, IsNext-added_behind, hash_at-set, IsLast, last_of-EndsFrom,
}
use adplug.Database.Places.{snoc_cases, set_cases, contents-snoc, contents-snoc_old}
use adplug.Database.Places.{contents-set_chain, live_count-snoc, live_count-set_chain}
use adplug.Database.Places.{key_eq→eq, key_eq_refl}
use adplug.Database.Validity.{IsValid, AreUnique, contents, contents-none}
use mathlib.Core.Path.{subst}

module _ (db : Db) (v : IsValid db) (rec : Record)
    (new : (m : ℕ) (c : Bucket) → get_elem? db.linear m ≡ some c → hit rec.key c ≡ false)
    (space : length db.linear < hash_radix) where
  abbrev n : ℕ
  n = length db.linear

  abbrev fresh : Bucket
  fresh = record { index = n; deleted = false; chain = none; rec = rec }

  abbrev grown : List Bucket
  grown = db.linear ++ (fresh ∷ [])

  abbrev h : ℕ
  h = make_hash rec.key

  added : IsAdded (hash_at db.linear) (hash_at grown) n h
  added = IsAdded-snoc db.linear fresh

  hit-fresh : (key : Key) → hit key fresh ≡ key_eq rec.key key
  unfolding hit
  hit-fresh key = refl

  hit_fresh : (key : Key) → hit key fresh ≡ true → rec.key ≡ key
  unfolding hit
  hit_fresh key e = key_eq→eq rec.key key (ground arith)

  hit_fresh_self : hit rec.key fresh ≡ true
  unfolding hit
  hit_fresh_self = key_eq_refl rec.key

  not_both :
      (key : Key) (i : ℕ) (a : Bucket)
      → get_elem? db.linear i ≡ some a
      → hit key a ≡ true
      → hit key fresh ≡ true
      → ⊥
  not_both key i a e ha hf =
      let same : rec.key ≡ key = hit_fresh key hf in cc (new i a e, ap (λ k. hit k a) same)

  grown-AreIndexed : AreIndexed grown
  grown-AreIndexed i b e = elim (snoc_cases db.linear fresh i b e) [
    | inl old ↦ v.indexed i b old
    | inr (p, q) ↦ rw (q, p)
  ]

  grown-AreUnique : AreUnique grown
  grown-AreUnique key i j a b ei ej ha hb = elim (snoc_cases db.linear fresh i a ei) [
    | inl oi ↦ elim (snoc_cases db.linear fresh j b ej) [
      | inl oj ↦ v.unique key i j a b oi oj ha hb
      | inr (_, q) ↦ absurd (not_both key i a oi ha (rw (← q) hb))
    ]
    | inr (p, q) ↦ elim (snoc_cases db.linear fresh j b ej) [
      | inl oj ↦ absurd (not_both key j b oj hb (rw (← q) ha))
      | inr (p', _) ↦ omega arith
    ]
  ]

  -- A chain that does not end, or is of another hash, is as it was.
  keep :
      (g k : ℕ) (p : Option ℕ)
      → (p ≡ none → g ≢ h)
      → IsNext (hash_at db.linear) g k p
      → IsNext (hash_at grown) g k p
  keep g k _ open_end (end nothing) =
      IsNext-added_other _ _ n h added g k none (open_end refl) (end nothing)
  keep g k _ open_end (at j kj e gap) = IsNext-added_some _ _ n h added g k j (at j kj e gap)

  -- The chains of `grown`, but for the bucket that ends the chain of `h`.
  grown_links :
      (i : ℕ) (b : Bucket)
      → get_elem? grown i ≡ some b
      → (get_elem? db.linear i ≡ some b → b.chain ≡ none → hash_of b ≢ h)
      → IsNext (hash_at grown) (hash_of b) (i + 1) b.chain
  grown_links i b e not_last = elim (snoc_cases db.linear fresh i b e) [
    | inl old ↦ keep (hash_of b) (i + 1) b.chain (not_last old) (v.linked i b old)
    | inr (p, q) ↦ rw (q, p) (IsNext-added_behind _ _ n h added h)
  ]

  contents-grown :
      (key : Key)
      → contents grown key ≡ (if key_eq rec.key key then some rec else contents db.linear key)
  contents-grown key = elim (Bool-cases (key_eq rec.key key)) [
    | inl e ↦
        let same : rec.key ≡ key = key_eq→eq rec.key key e in
        rw e (
          contents-snoc db.linear fresh key (rw (← same) (contents-none db.linear rec.key new))
          ∙ rw (← same, hit_fresh_self))
    | inr e ↦ rw e (contents-snoc_old db.linear fresh key (rw hit-fresh e))
  ]

  -- What `insert` must leave behind: the invariant, and the map with `rec` at its key.
  abbrev pub Added : Db → Type 0
  Added db' =
      IsValid db'
      × (length db'.linear ≡ n + 1)
      × ((key : Key)
          → contents db'.linear key
            ≡ (if key_eq rec.key key then some rec else contents db.linear key))

  first_of_chain :
      db.hashed h ≡ none
      → Added (record db {
        linear = grown;
        hashed = update db.hashed h n;
        linear_logic_length = db.linear_logic_length + 1;
      })
  unfolding update
  first_of_chain none_yet =
      let alone : (m : ℕ) → hash_at db.linear m ≢ some h =
        λ m. IsNext-none _ h 0 m (rw none_yet at (v.headed h)) (omega arith) in
      (
        record {
          indexed = grown-AreIndexed;
          linked = λ i b e.
              grown_links i b e
                (λ old _ same. alone i (hash_at-get db.linear i b old ∙ ap some same));
          headed = λ g. elim (Bool-cases (h == g)) [
            | inl e ↦
                let same : h ≡ g = (==_iff h g).0 e in
                rw e (
                  subst (λ k. IsNext (hash_at grown) k 0 (some n)) same
                    (IsNext-added_end _ _ n h added 0 (omega arith) (rw none_yet at (v.headed h))))
            | inr e ↦ rw e (keep g 0 (db.hashed g) (λ _ same. ground arith) (v.headed g))
          ];
          unique = grown-AreUnique;
          counted = omega (arith, v.counted, live_count-snoc db.linear fresh refl);
          cursor = omega (arith, v.cursor, length-append db.linear (fresh ∷ []));
          room = omega (arith, length-append db.linear (fresh ∷ []));
        },
        omega (arith, length-append db.linear (fresh ∷ [])),
        contents-grown,
      )

  module _ (head : ℕ) (some_head : db.hashed h ≡ some head) (t : ℕ) (b : Bucket)
      (last : IsLast db.linear h t b) where
    abbrev linked_to : Bucket
    linked_to = record b { chain = some n }

    abbrev joined : List Bucket
    joined = set grown t linked_to

    in_grown : get_elem? grown t ≡ some b
    in_grown =
        get_elem?-snoc_lt db.linear fresh t (lt-of_get_elem? db.linear t b last.there) ∙ last.there

    same_hashes : hash_at joined ≡ hash_at grown
    same_hashes = hash_at-set grown t b linked_to in_grown refl

    joined_links : AreLinked joined
    joined_links i c e = rw same_hashes (elim (set_cases grown t linked_to i c e) [
      | inl (p, q) ↦
          rw (q, p, last.same_hash)
            (IsNext-added_end _ _ n h added (t + 1)
              (omega (arith, lt-of_get_elem? db.linear t b last.there))
              (rw (last.ends, last.same_hash) at (v.linked t b last.there)))
      | inr (ne, old) ↦ grown_links i c old (λ oc ends same. ne (
          end_unique db.linear i t c b v.linked oc last.there ends last.ends
            (same ∙ sym last.same_hash)))
    ])

    hit-linked_to : (key : Key) → hit key linked_to ≡ hit key b
    unfolding hit
    hit-linked_to key = refl

    hit-joined :
        (key : Key) (i : ℕ) (c : Bucket)
        → get_elem? joined i ≡ some c
        → hit key c ≡ true
        → (c' : Bucket) × (get_elem? grown i ≡ some c') × (hit key c' ≡ true)
    hit-joined key i c e found = elim (set_cases grown t linked_to i c e) [
      | inl (p, q) ↦ (b, rw p in_grown, unfold hit in rw q at found)
      | inr (_, old) ↦ (c, old, found)
    ]

    in_chain :
        Added (record db { linear = joined; linear_logic_length = db.linear_logic_length + 1 })
    in_chain = (
      record {
        indexed = λ i c e. elim (set_cases grown t linked_to i c e) [
          | inl (p, q) ↦ rw (q, p) (v.indexed t b last.there)
          | inr (_, old) ↦ grown-AreIndexed i c old
        ];
        linked = joined_links;
        headed = λ g.
            rw same_hashes
              (keep g 0 (db.hashed g) (λ ends same. cc (ap db.hashed same)) (v.headed g));
        unique = λ key i j a c ei ej ha hc.
            let (a', ea', ha') = hit-joined key i a ei ha in
            let (c', ec', hc') = hit-joined key j c ej hc in
            grown-AreUnique key i j a' c' ea' ec' ha' hc';
        counted = omega (
          arith,
          v.counted,
          live_count-snoc db.linear fresh refl,
          live_count-set_chain grown t b (some n) in_grown,
        );
        cursor =
            omega
              (arith, v.cursor, length-append db.linear (fresh ∷ []), length-set grown t linked_to);
        room = omega (arith, length-append db.linear (fresh ∷ []), length-set grown t linked_to);
      },
      omega (arith, length-append db.linear (fresh ∷ []), length-set grown t linked_to),
      λ key. contents-set_chain grown t b (some n) key in_grown ∙ contents-grown key,
    )

    add_bucket-chained :
        last_of (n + 1) grown head ≡ ok t
        → add_bucket db rec
          ≡ ok (record db { linear = joined; linear_logic_length = db.linear_logic_length + 1 })
    unfolding add_bucket set_chain
    add_bucket-chained run = rw (some_head, add_bucket) (rw run (rw in_grown))

  add_bucket-first :
      db.hashed h ≡ none
      → add_bucket db rec
        ≡ ok (record db {
          linear = grown;
          hashed = update db.hashed h n;
          linear_logic_length = db.linear_logic_length + 1;
        })
  unfolding add_bucket
  add_bucket-first e = rw (e, add_bucket)

  head_of :
      (head : ℕ) → IsNext (hash_at db.linear) h 0 (some head) → hash_at db.linear head ≡ some h
  head_of head (at _ _ e _) = e

  pub add_bucket-Added : Returns Added (add_bucket db rec)
  add_bucket-Added = elim (Option-cases (db.hashed h)) [
    | inl e ↦ rw (add_bucket-first e) (first_of_chain e)
    | inr (head, e) ↦
        let (t, b, run, last) =
          last_of-EndsFrom db.linear fresh h v.linked (n + 1) head (omega arith)
            (head_of head (rw e at (v.headed h))) in
        rw (add_bucket-chained head e t b last run) (in_chain head e t b last)
  ]
