-- ===== src/Term/Editor.antt =====
-- shell/internal/term/editor.go: the loop of ReadLine, one key at a time. Drawing and the writes to
-- the terminal are left out; the completer and Go's `strings.ToLower` are arguments. Completion
-- `nil` is `none`.
pub mod Keys
pub mod Valid
pub mod Lines
use aish.Prelude.{
  ℕ, zero, suc, ◌+◌, ◌-◌, ◌%◌, Bool, true, false, not, ◌&&◌, ◌||◌, Option, none, some, List, [],
  ◌∷◌, ◌++◌, ◌==◌, if◌then◌else◌, length, get_elem?, take, drop, Text, Rune, text_eq,
}
use aish.Prelude.Int.{pos}
use aish.Term.Buffer
use aish.Term.Buffer.{Buffer, Token, token_at_cursor}
use aish.Term.History
use aish.Term.History.{Source, HistoryNav, Shown, suggest, new_history_nav}
use aish.Term.Search
use aish.Term.Search.{Search, new_search}
use aish.Term.Editor.Keys.{
  Key, rune, ctrl_a, ctrl_b, ctrl_c, ctrl_d, ctrl_e, ctrl_f, ctrl_r, ctrl_u, ctrl_w, tab, enter,
  backspace, delete, home, end, up, down, left, right, esc, unknown, is_tab,
}

pub record Editor : Type 0 where
  pub buf : Buffer
  pub nav : HistoryNav
  pub completions : Option (List Text)
  pub completion_idx : ℕ
  pub completion_token : Text
  pub completion_start : ℕ
  pub search : Option Search
  pub search_stash : Text

-- How a key ends: the loop goes on, ReadLine returns, or an index out of range panics.
pub data Outcome : Type 0 where
  go_on : Editor → Outcome
  accepted : Text → Outcome
  interrupt : Outcome
  eof : Outcome
  panic : Outcome

-- `e.buf.SetText(s); e.buf.End()`
abbrev pub show_text : Text → Editor → Editor
show_text s e = record e { buf = Buffer.end (Buffer.set_text s e.buf) }

abbrev pub edit : (Buffer → Buffer) → Editor → Outcome
edit f e = go_on (record e { buf = f e.buf })

-- What handleSearchKey returns, with the search and the buffer that it leaves.
pub record SearchStep : Type 0 where
  pub is_done : Bool
  pub is_accepted : Bool
  pub line : Text
  pub search : Search
  pub buf : Buffer

module _ (to_lower : Text → Text) (complete : Text → Bool → Text → List Text) (src : Source) where
  search_on : Buffer → Option Search → Option SearchStep
  search_on b none = none
  search_on b (some s) =
      some (record { is_done = false; is_accepted = false; line = []; search = s; buf = b })

  search_off : Search → Buffer → SearchStep
  search_off s b = record { is_done = true; is_accepted = false; line = []; search = s; buf = b }

  after_next : Option (Bool × Search) → Option Search
  after_next none = none
  after_next (some (moved, s)) = some s

  -- handleSearchKey: `none` where a read of the history panics.
  unfoldable pub handle_search_key : Search → Key → Text → Buffer → Option SearchStep
  unfolding search_on search_off after_next
  handle_search_key s enter stash b = elim (Search.current src s) [
    | none ↦ none
    | some match ↦ some (
        if text_eq match []
        then search_off s b
        else record { is_done = true; is_accepted = true; line = match; search = s; buf = b })
  ]
  handle_search_key s ctrl_c stash b = some (search_off s b)
  handle_search_key s esc stash b = some (search_off s b)
  handle_search_key s ctrl_r stash b = search_on b (after_next (Search.next to_lower src s))
  handle_search_key s backspace stash b = search_on b (Search.backspace to_lower src s)
  handle_search_key s (rune r) stash b = search_on b (Search.append_query to_lower src r s)
  handle_search_key s _ stash b = elim (Search.current src s) [
    | none ↦ none
    | some match ↦
        some (
          search_off s (Buffer.end (Buffer.set_text (if text_eq match [] then stash else match) b)))
  ]

  -- The branch of ReadLine in search mode. A search that is done without a line gives the buffer
  -- the stash.
  unfoldable pub step_search : Search → Key → Editor → Outcome
  unfolding handle_search_key
  step_search s key e = elim (handle_search_key s key e.search_stash e.buf) [
    | none ↦ panic
    | some r ↦
        if r.is_done
        then (if r.is_accepted
            then accepted r.line
            else go_on (show_text e.search_stash (record e { buf = r.buf; search = none })))
        else go_on (record e { buf = r.buf; search = some r.search })
  ]

  -- Writing the candidate at `completion_idx` over the token.
  write_candidate : Token → Option Text → Editor → Outcome
  write_candidate t none e = panic
  write_candidate t (some chosen) e =
      let old_end = t.start + length t.text in
      let text = take t.start e.buf.runes ++ (chosen ++ drop old_end e.buf.runes) in
      go_on (record e {
        buf = Buffer.set_cursor (pos (t.start + length chosen)) (Buffer.set_text text e.buf);
        completion_token = chosen;
      })

  fresh_tab : Token → List Text → Editor → Outcome
  unfolding write_candidate
  fresh_tab t [] e = go_on (record e { completions = none })
  fresh_tab t (c ∷ cands) e =
      write_candidate t (some c) (record e {
        completions = some (c ∷ cands);
        completion_idx = 0;
        completion_start = t.start;
      })

  pub step_tab : Token → Editor → Outcome
  unfolding write_candidate fresh_tab
  step_tab t e =
      let fresh = fresh_tab t (complete t.text t.is_first e.buf.runes) e in
      elim e.completions [
        | none ↦ fresh
        | some cands ↦
            if t.start == e.completion_start && text_eq t.text e.completion_token
            then (let i = (e.completion_idx + 1) % length cands in
                write_candidate t (get_elem? cands i) (record e { completion_idx = i }))
            else fresh
      ]

  accept_ghost : Text → Editor → Outcome
  accept_ghost g e = go_on (show_text (e.buf.runes ++ g) e)

  -- The ghost text, if there is one, is accepted; otherwise `e'` is the next state.
  pub offer_ghost : Option Text → Editor → Editor → Outcome
  unfolding accept_ghost
  offer_ghost none e e' = panic
  offer_ghost (some g) e e' = if text_eq g [] then go_on e' else accept_ghost g e

  pub recall : Shown × HistoryNav → Editor → Outcome
  recall (Shown.line s, nav) e = go_on (show_text s (record e { nav = nav }))
  recall (Shown.nothing, nav) e = go_on (record e { nav = nav })
  recall (Shown.panic, nav) e = panic

  -- The switch of ReadLine outside of a search.
  unfoldable pub dispatch : Key → Editor → Outcome
  unfolding step_tab offer_ghost recall
  dispatch enter e = accepted e.buf.runes
  dispatch ctrl_c e = interrupt
  dispatch ctrl_d e = if length e.buf.runes == 0 then eof else edit Buffer.delete e
  dispatch backspace e = edit Buffer.backspace e
  dispatch delete e = edit Buffer.delete e
  dispatch ctrl_a e = edit Buffer.home e
  dispatch home e = edit Buffer.home e
  dispatch ctrl_e e = edit Buffer.end e
  dispatch end e = edit Buffer.end e
  dispatch ctrl_b e = edit Buffer.move_left e
  dispatch left e = edit Buffer.move_left e
  dispatch ctrl_f e =
      offer_ghost (suggest src e.buf.runes) e (record e { buf = Buffer.move_right e.buf })
  dispatch right e =
      if e.buf.cursor == length e.buf.runes
      then offer_ghost (suggest src e.buf.runes) e e
      else edit Buffer.move_right e
  dispatch ctrl_u e = edit Buffer.kill_to_start e
  dispatch ctrl_w e = edit Buffer.kill_word e
  dispatch up e =
      let nav = if e.nav.idx == length src then History.stash src e.buf.runes e.nav else e.nav in
      recall (History.up src nav) e
  dispatch down e = recall (History.down src e.nav) e
  dispatch tab e = step_tab (token_at_cursor e.buf) e
  dispatch ctrl_r e = go_on (record e { search_stash = e.buf.runes; search = some new_search })
  dispatch esc e = go_on e
  dispatch (rune r) e = edit (Buffer.insert_rune r) e
  dispatch unknown e = go_on e

  pub forget_in : Option (List Text) → Key → Editor → Editor
  forget_in none key e = e
  forget_in (some cands) key e =
      if is_tab key then e else record e { completions = none; completion_idx = 0 }

  -- Any key but Tab forgets the completions.
  unfoldable pub forget : Key → Editor → Editor
  unfolding forget_in
  forget key e = forget_in e.completions key e

  pub step_in : Option Search → Key → Editor → Outcome
  unfolding step_search dispatch
  step_in none key e = dispatch key e
  step_in (some s) key e = step_search s key e

  -- One round of the loop of ReadLine, on a decoded key.
  unfoldable pub step : Key → Editor → Outcome
  unfolding step_in forget
  step key e = step_in e.search key (forget key e)

  abbrev pub initial : Editor
  initial = record {
    buf = Buffer.new_buffer;
    nav = new_history_nav src;
    completions = none;
    completion_idx = 0;
    completion_token = [];
    completion_start = 0;
    search = none;
    search_stash = [];
  }

  -- The loop, on the keys that are read until the input ends.
  unfoldable pub read_keys : List Key → Editor → Outcome
  unfolding step
  read_keys [] e = if length e.buf.runes == 0 then eof else accepted e.buf.runes
  read_keys (k ∷ ks) e = elim (step k e) [
    | go_on e' ↦ read_keys ks e'
    | accepted s ↦ accepted s
    | interrupt ↦ interrupt
    | eof ↦ eof
    | panic ↦ panic
  ]

  -- ReadLine
  unfoldable pub read_line : List Key → Outcome
  unfolding read_keys
  read_line keys = read_keys keys initial
