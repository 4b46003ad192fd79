-- ===== src/Term/Search/Match.antt =====
-- A search reads no entry that is not there, and shows the newest match, and Next the newest one
-- older than that.
use aish.Prelude.{
  ℕ, zero, suc, ◌-◌, ◌≤◌, ◌<◌, ◌≡◌, refl, ◌⊎◌, inl, inr, Bool, true, false, Option, none, some,
  List, [], ◌∷◌, ◌++◌, ◌==◌, arith, length, take, get_elem?, Text, Rune, Bool-cases, Option-cases,
}
use aish.Term.History.{Source}
use aish.Term.Search.{
  Search, hit, find_below, find_newest, append_query, backspace, next, next_from, current,
}

pub entry_at : (src : Source) (i : ℕ) → i < length src → (t : Text) × (get_elem? src i ≡ some t)
entry_at [] i h = absurd (omega arith)
entry_at (c ∷ src) zero h = (c, refl)
entry_at (c ∷ src) (suc i) h = entry_at src i (omega arith)

abbrev pub IdxIn : Source → Option ℕ → Type 0
IdxIn src none = Unit {0}
IdxIn src (some i) = i < length src

module _ (to_lower : Text → Text) (src : Source) where
  module _ (query : List Rune) where
    -- What is at entry `i`, if there is one, is no match.
    abbrev pub Misses : ℕ → Type 0
    Misses i = (t : Text) → get_elem? src i ≡ some t → hit to_lower query t ≡ false

    -- `i` is the newest match below entry `n`.
    pub record NewestHit (n i : ℕ) : Type 0 where
      pub below : i < n
      pub entry : Text
      pub entry_is : get_elem? src i ≡ some entry
      pub hits : hit to_lower query entry ≡ true
      pub newest : (j : ℕ) → i < j → j < n → Misses j

    -- What a search below entry `n` may return.
    abbrev pub Found : ℕ → Option ℕ → Type 0
    Found n none = (j : ℕ) → j < n → Misses j
    Found n (some i) = NewestHit n i

    below_or_last : (j n : ℕ) → j < suc n → (j < n) ⊎ (j ≡ n)
    below_or_last j n h = ground arith

    last : (n j : ℕ) → Misses n → (j < n → Misses j) → j < suc n → Misses j
    last n j e f h = elim (below_or_last j n h) [ inl lt ↦ f lt | inr eq ↦ rw eq e ]

    older : (n : ℕ) (o : Option ℕ) → Misses n → Found n o → Found (suc n) o
    older n none e f = λ j h. last n j e (f j) h
    older n (some i) e f = record {
      below = omega (arith, f.below);
      entry = f.entry;
      entry_is = f.entry_is;
      hits = f.hits;
      newest = λ j lo hi. last n j e (λ lt. f.newest j lo lt) hi;
    }

    pub find_below_lem :
        (n : ℕ)
        → n ≤ length src
        → (o : Option ℕ) × (find_below to_lower src query n ≡ some o) × Found n o
    unfolding find_below
    find_below_lem zero h = (none, refl, λ j h. absurd (omega arith))
    find_below_lem (suc n) h =
        let (t, is) = entry_at src n (omega arith) in
        elim (Bool-cases (hit to_lower query t)) [
          | inl e ↦ (
            some n,
            rw (is, e, find_below),
            record {
              below = omega arith;
              entry = t;
              entry_is = is;
              hits = e;
              newest = λ j lo hi. absurd (omega arith);
            },
          )
          | inr e ↦
              let (o, found, f) = find_below_lem n (omega arith) in
              (o, rw (is, e, found, find_below), older n o (λ t' is'. cc) f)
        ]

  IdxIn-Found :
      (query : List Rune) (n : ℕ) (o : Option ℕ) → n ≤ length src → Found query n o → IdxIn src o
  IdxIn-Found query n none h f = tt
  IdxIn-Found query n (some i) h f = omega (arith, f.below)

  -- The search goes on, at an entry that is there.
  abbrev pub GoesOn : Option Search → Type 0
  GoesOn o = (s : Search) × (o ≡ some s) × IdxIn src s.idx

  find_newest-GoesOn : (query : List Rune) → GoesOn (find_newest to_lower src query)
  unfolding find_newest
  find_newest-GoesOn query =
      let (o, is, f) = find_below_lem query (length src) (omega arith) in
      (
        record { query = query; idx = o },
        rw (is, find_newest),
        IdxIn-Found query (length src) o (omega arith) f,
      )

  pub append_query-GoesOn : (r : Rune) (s : Search) → GoesOn (append_query to_lower src r s)
  unfolding append_query
  append_query-GoesOn r s = find_newest-GoesOn (s.query ++ r ∷ [])

  pub backspace-GoesOn : (s : Search) → GoesOn (backspace to_lower src s)
  unfolding backspace
  backspace-GoesOn s = elim (Bool-cases (length s.query == 0)) [
    | inl e ↦ rw e (record s { idx = none }, refl, tt)
    | inr e ↦ elim (Bool-cases (length (take (length s.query - 1) s.query) == 0)) [
      | inl e' ↦
          rw (e, e') (record { query = take (length s.query - 1) s.query; idx = none }, refl, tt)
      | inr e' ↦ rw (e, e') (find_newest-GoesOn (take (length s.query - 1) s.query))
    ]
  ]

  abbrev pub MovesTo : Option (Bool × Search) → Type 0
  MovesTo o = (r : Bool × Search) × (o ≡ some r) × IdxIn src r.1.idx

  next-Found :
      (q : List Rune) (i : ℕ) (o : Option ℕ)
      → i < length src
      → (length q == 0) ≡ false
      → find_below to_lower src q i ≡ some o
      → Found q i o
      → MovesTo (next to_lower src (record { query = q; idx = some i }))
  unfolding next next_from
  next-Found q i none h e found f =
      ((false, record { query = q; idx = some i }), rw (e, found, next), h)
  next-Found q i (some j) h e found f =
      ((true, record { query = q; idx = some j }), rw (e, found, next), omega (arith, f.below))

  next_at :
      (q : List Rune) (o : Option ℕ)
      → IdxIn src o
      → MovesTo (next to_lower src (record { query = q; idx = o }))
  unfolding next next_from
  next_at q none h = elim (Bool-cases (length q == 0)) [
    | inl e ↦ ((false, record { query = q; idx = none }), rw e, tt)
    | inr e ↦ ((false, record { query = q; idx = none }), rw e, tt)
  ]
  next_at q (some i) h = elim (Bool-cases (length q == 0)) [
    | inl e ↦ ((false, record { query = q; idx = some i }), rw e, h)
    | inr e ↦ let (o, found, f) = find_below_lem q i (omega arith) in next-Found q i o h e found f
  ]

  pub next-MovesTo : (s : Search) → IdxIn src s.idx → MovesTo (next to_lower src s)
  next-MovesTo s h = next_at s.query s.idx h

pub current-some :
    (src : Source) (s : Search) → IdxIn src s.idx → (t : Text) × (current src s ≡ some t)
unfolding current
current-some src s h = elim (Option-cases s.idx) [
  | inl e ↦ ([], rw (e, current))
  | inr (i, e) ↦ elim (Bool-cases (length s.query == 0)) [
    | inl z ↦ ([], rw (e, z, current))
    | inr z ↦ let (t, is) = entry_at src i (rw e at h) in (t, rw (e, z, is, current))
  ]
]
