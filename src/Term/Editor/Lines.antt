-- ===== src/Term/Editor/Lines.antt =====
-- What the user gets: the typed line, a completion, and the line from before a search.
use aish.Prelude.{
  ◌≡◌, refl, ap, ◌∙◌, sym, Bool, true, false, Option, none, some, List, [], ◌∷◌, ◌++◌, append-nil,
  append_assoc, map, ==_refl, arith, if◌then◌else◌, length, length-append, Text, Rune, text_eq, All,
}
use aish.Term.Buffer
use aish.Term.Buffer.{Buffer, Token, token_at_cursor}
use aish.Term.History.{Source}
use aish.Term.Search.{Search, new_search}
use aish.Term.Search.Match.{
  IdxIn, GoesOn, append_query-GoesOn, backspace-GoesOn, next-MovesTo, current-some,
}
use aish.Term.Editor.Keys.{Key, rune, enter, esc}
use aish.Term.Editor.{
  Editor, SearchStep, search_on, search_off, after_next, go_on, accepted, show_text, step_search,
  handle_search_key, dispatch, forget_in, step, initial, read_keys, read_line,
}

insert_at_end :
    (r : Rune) (b : Buffer)
    → b.cursor ≡ length b.runes
    → Buffer.insert_rune r b
      ≡ record { runes = b.runes ++ r ∷ []; cursor = length (b.runes ++ r ∷ []) }
unfolding Buffer.insert_rune
insert_at_end r b h = ground (arith, length-append b.runes (r ∷ []), ==_refl b.cursor)

-- The keys that the search itself takes; any other ends it.
abbrev pub SearchKey : Key → Type 0
SearchKey (rune r) = Unit {0}
SearchKey Key.backspace = Unit {0}
SearchKey Key.ctrl_r = Unit {0}
SearchKey _ = ⊥

-- The keys that end a search without returning a line.
abbrev pub EndsSearch : Key → Type 0
EndsSearch (rune r) = ⊥
EndsSearch Key.backspace = ⊥
EndsSearch Key.ctrl_r = ⊥
EndsSearch enter = ⊥
EndsSearch _ = Unit {0}

module _ (to_lower : Text → Text) (complete : Text → Bool → Text → List Text) (src : Source) where
  -- The editor between two runes that are typed at the end of the line.
  record Typing (s : Text) (e : Editor) : Type 0 where
    buf_is : e.buf ≡ record { runes = s; cursor = length s }
    no_completions : e.completions ≡ none
    no_search : e.search ≡ none

  typed :
      (s : Text) (r : Rune) (e : Editor)
      → Typing s e
      → (e' : Editor) × (step to_lower complete src (rune r) e ≡ go_on e') × Typing (s ++ r ∷ []) e'
  typed s r e t = (
    record e { buf = Buffer.insert_rune r e.buf },
    unfold step in rw (t.no_completions, t.no_search, step) refl,
    record {
      buf_is =
          ap (Buffer.insert_rune r) t.buf_is
          ∙ insert_at_end r (record { runes = s; cursor = length s }) refl;
      no_completions = t.no_completions;
      no_search = t.no_search;
    },
  )

  enter_returns :
      (e : Editor)
      → e.search ≡ none
      → (ks : List Key) → read_keys to_lower complete src (enter ∷ ks) e ≡ accepted e.buf.runes
  unfolding read_keys
  enter_returns e h ks = go e.completions refl
    where
      go :
          (o : Option (List Text))
          → e.completions ≡ o
          → read_keys to_lower complete src (enter ∷ ks) e ≡ accepted e.buf.runes
      go none c = rw (h, c, step, read_keys)
      go (some cands) c = rw (h, c, step, read_keys)

  typed_keys :
      (s rs : Text) (e : Editor)
      → Typing s e
      → read_keys to_lower complete src (map rune rs ++ enter ∷ []) e ≡ accepted (s ++ rs)
  typed_keys s [] e t =
      enter_returns e t.no_search []
      ∙ ap accepted (ap (λ (b : Buffer). b.runes) t.buf_is ∙ sym (append-nil s))
  typed_keys s (r ∷ rs) e t =
      let (e', is, t') = typed s r e t in
      let later : read_keys to_lower complete src (map rune rs ++ enter ∷ []) e'
          ≡ accepted ((s ++ r ∷ []) ++ rs) =
        typed_keys (s ++ r ∷ []) rs e' t' in
      let first : read_keys to_lower complete src (map rune (r ∷ rs) ++ enter ∷ []) e
          ≡ read_keys to_lower complete src (map rune rs ++ enter ∷ []) e' =
        unfold read_keys in rw (is, read_keys) in
      first ∙ later ∙ ap accepted (append_assoc s (r ∷ []) rs)

  -- The runes that are typed, and then Enter, are the line that ReadLine returns.
  pub read_line_typed :
      (rs : Text) → read_line to_lower complete src (map rune rs ++ enter ∷ []) ≡ accepted rs
  unfolding read_line
  read_line_typed rs =
      typed_keys [] rs (initial to_lower complete src)
        (record { buf_is = refl; no_completions = refl; no_search = refl })

  -- In a search that was begun on the line `t`, at an entry that is there.
  record Searching (t : Text) (e : Editor) : Type 0 where
    current : Search
    search_is : e.search ≡ some current
    idx_in : IdxIn src current.idx
    stash_is : e.search_stash ≡ t

  -- The search goes on with the same buffer.
  abbrev StaysIn : Buffer → Option SearchStep → Type 0
  StaysIn b o =
      (s : Search) × (o
        ≡ some (record { is_done = false; is_accepted = false; line = []; search = s; buf = b }))
      × IdxIn src s.idx

  search_on-StaysIn :
      (b : Buffer) (o : Option Search)
      → GoesOn to_lower src o
      → StaysIn b (search_on to_lower complete src b o)
  unfolding search_on
  search_on-StaysIn b o (s, is, h) = (s, rw (is, search_on), h)

  SearchKey-goes_on :
      (key : Key) (s : Search) (stash : Text) (b : Buffer)
      → IdxIn src s.idx
      → SearchKey key
      → StaysIn b (handle_search_key to_lower complete src s key stash b)
  unfolding handle_search_key after_next
  SearchKey-goes_on (rune r) s stash b i h =
      search_on-StaysIn b _ (append_query-GoesOn to_lower src r s)
  SearchKey-goes_on Key.backspace s stash b i h =
      search_on-StaysIn b _ (backspace-GoesOn to_lower src s)
  SearchKey-goes_on Key.ctrl_r s stash b i h =
      let (r, is, h') = next-MovesTo to_lower src s i in
      search_on-StaysIn b _ (r.1, rw (is, after_next), h')
  SearchKey-goes_on _ s stash b i h = elim h [ ]

  search_key_ends :
      (key : Key) (s : Search) (stash : Text) (b : Buffer)
      → IdxIn src s.idx
      → EndsSearch key
      → (b' : Buffer) × (handle_search_key to_lower complete src s key stash b
          ≡ some (record { is_done = true; is_accepted = false; line = []; search = s; buf = b' }))
  unfolding handle_search_key search_off
  search_key_ends Key.ctrl_c s stash b i h = (b, refl)
  search_key_ends esc s stash b i h = (b, refl)
  search_key_ends (rune r) s stash b i h = elim h [ ]
  search_key_ends Key.backspace s stash b i h = elim h [ ]
  search_key_ends Key.ctrl_r s stash b i h = elim h [ ]
  search_key_ends enter s stash b i h = elim h [ ]
  search_key_ends _ s stash b i h =
      let (match, is) = current-some src s i in
      (
        Buffer.end (Buffer.set_text (if text_eq match [] then stash else match) b),
        rw (is, handle_search_key),
      )

  forgotten :
      (o : Option (List Text)) (key : Key) (e : Editor)
      → ((forget_in to_lower complete src o key e).search ≡ e.search)
        × ((forget_in to_lower complete src o key e).search_stash ≡ e.search_stash)
        × ((forget_in to_lower complete src o key e).buf ≡ e.buf)
  unfolding forget_in
  forgotten none key e = (refl, refl, refl)
  forgotten (some cands) key e = (ground arith, ground arith, ground arith)

  step-Searching :
      (key : Key) (e : Editor) (t : Text)
      → Searching t e
      → SearchKey key
      → (e' : Editor) × (step to_lower complete src key e ≡ go_on e') × Searching t e'
  step-Searching key e t q h =
      let f : Editor = forget_in to_lower complete src e.completions key e in
      let (s', r, i) = SearchKey-goes_on key q.current f.search_stash f.buf q.idx_in h in
      (
        record f { buf = f.buf; search = some s' },
        unfold step step_search in rw (q.search_is, step) (ground (arith, r)),
        record {
          current = s';
          search_is = refl;
          idx_in = i;
          stash_is = (forgotten e.completions key e).1 ∙ q.stash_is;
        },
      )

  step_ends :
      (key : Key) (e : Editor) (t : Text)
      → Searching t e
      → EndsSearch key
      → (e' : Editor) × (step to_lower complete src key e ≡ go_on e')
        × (e'.search ≡ none)
        × (e'.buf.runes ≡ t)
  unfolding Buffer.end Buffer.set_text
  step_ends key e t q h =
      let f : Editor = forget_in to_lower complete src e.completions key e in
      let (b', r) = search_key_ends key q.current f.search_stash f.buf q.idx_in h in
      (
        show_text f.search_stash (record f { buf = b'; search = none }),
        unfold step step_search in rw (q.search_is, step) (ground (arith, r)),
        refl,
        (forgotten e.completions key e).1 ∙ q.stash_is,
      )

  keys_ends :
      (ks : List Key) (key : Key) (e : Editor) (t : Text)
      → Searching t e
      → All SearchKey ks
      → EndsSearch key
      → read_keys to_lower complete src (ks ++ (key ∷ enter ∷ [])) e ≡ accepted t
  keys_ends [] key e t q a h =
      let (e', is, none_is, text_is) = step_ends key e t q h in
      let first : read_keys to_lower complete src (key ∷ enter ∷ []) e
          ≡ read_keys to_lower complete src (enter ∷ []) e' =
        unfold read_keys in rw (is, read_keys) in
      first ∙ enter_returns e' none_is [] ∙ ap accepted text_is
  keys_ends (k ∷ ks) key e t q a h =
      let (e', is, q') = step-Searching k e t q a.0 in
      let first : read_keys to_lower complete src (k ∷ (ks ++ (key ∷ enter ∷ []))) e
          ≡ read_keys to_lower complete src (ks ++ (key ∷ enter ∷ [])) e' =
        unfold read_keys in rw (is, read_keys) in
      first ∙ keys_ends ks key e' t q' a.1 h

  step_ctrl_r :
      (e : Editor)
      → e.search ≡ none
      → (e' : Editor) × (step to_lower complete src Key.ctrl_r e ≡ go_on e')
        × Searching e.buf.runes e'
  step_ctrl_r e h =
      let f : Editor = forget_in to_lower complete src e.completions Key.ctrl_r e in
      (
        record f { search_stash = f.buf.runes; search = some new_search },
        unfold step dispatch in rw (h, step),
        record {
          current = new_search;
          search_is = refl;
          idx_in = tt;
          stash_is = ap (λ (b : Buffer). b.runes) (forgotten e.completions Key.ctrl_r e).2;
        },
      )

  -- Outside of a search: one that is begun and then ends by any key but Enter leaves the line as it was when Ctrl-R was pressed,
  -- whatever was searched for in between: Enter then returns that line. The key may be Esc or
  -- Ctrl-C, and also an arrow, Home or End, for which the match is dropped as well.
  pub leaving_search_restores :
      (e : Editor) (ks : List Key) (key : Key)
      → e.search ≡ none
      → All SearchKey ks
      → EndsSearch key
      → read_keys to_lower complete src (Key.ctrl_r ∷ (ks ++ (key ∷ enter ∷ []))) e
        ≡ accepted e.buf.runes
  leaving_search_restores e ks key none_is a h =
      let (e', is, q) = step_ctrl_r e none_is in
      let first : read_keys to_lower complete src (Key.ctrl_r ∷ (ks ++ (key ∷ enter ∷ []))) e
          ≡ read_keys to_lower complete src (ks ++ (key ∷ enter ∷ [])) e' =
        unfold read_keys in rw (is, read_keys) in
      first ∙ keys_ends ks key e' e.buf.runes q a h
