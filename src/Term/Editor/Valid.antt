-- ===== src/Term/Editor/Valid.antt =====
-- No sequence of keys makes ReadLine index outside of a slice.
pub mod Steps
use aish.Prelude.{
  ℕ, zero, suc, ◌+◌, ◌-◌, ◌%◌, ◌≤◌, ◌<◌, ◌≡◌, ◌≢◌, refl, ap, ◌∙◌, sym, ◌⊎◌, inl, inr, Bool, true,
  false, ◌&&◌, Option, none, some, List, [], ◌∷◌, ◌++◌, ◌==◌, arith, if◌then◌else◌, length,
  get_elem?, take, drop, Text, Rune, text_eq, Bool-cases, Option-cases,
}
use aish.Prelude.Int.{pos}
use aish.Term.Buffer
use aish.Term.Buffer.{Buffer, Token, token_at_cursor}
use aish.Term.Buffer.Edits.{Edit, apply, edit_refines}
use aish.Term.Buffer.Edits
use aish.Term.History
use aish.Term.History.{Source, HistoryNav, Shown, suggest, new_history_nav}
use aish.Term.History.Walk
use aish.Term.History.Walk.{up_down_lem}
use aish.Term.Search
use aish.Term.Search.{Search, new_search}
use aish.Term.Search.Match.{
  IdxIn, GoesOn, append_query-GoesOn, backspace-GoesOn, next-MovesTo, current-some,
}
use aish.Term.Editor.Keys
use aish.Term.Editor.Keys.{Key, is_tab}
use aish.Term.Editor.{
  Editor, Outcome, go_on, accepted, interrupt, eof, panic, show_text, step_search,
  handle_search_key, search_on, search_off, after_next, write_candidate, fresh_tab, step_tab,
  accept_ghost, recall, dispatch, forget, step_in, step, initial, read_keys, read_line, SearchStep,
}

abbrev InRange : Option (List Text) → ℕ → Type 0
InRange none i = Unit {0}
InRange (some cands) i = i < length cands

abbrev SearchIn : Source → Option Search → Type 0
SearchIn src none = Unit {0}
SearchIn src (some s) = IdxIn src s.idx

pub record IsValid (src : Source) (e : Editor) : Type 0 where
  pub buf_valid : Buffer.IsValid e.buf
  pub nav_valid : e.nav.idx ≤ length src
  pub completions_valid : InRange e.completions e.completion_idx
  pub search_valid : SearchIn src e.search

abbrev Fine : Source → Outcome → Type 0
Fine src (go_on e) = IsValid src e
Fine src (accepted s) = Unit {0}
Fine src interrupt = Unit {0}
Fine src eof = Unit {0}
Fine src panic = ⊥

set_cursor-IsValid : (n : ℕ) (b : Buffer) → Buffer.IsValid (Buffer.set_cursor (pos n) b)
unfolding Buffer.set_cursor
set_cursor-IsValid n b = ground arith

end-IsValid : (b : Buffer) → Buffer.IsValid (Buffer.end b)
unfolding Buffer.end
end-IsValid b = ground arith

module _ (src : Source) where
  with_buf :
      (b : Buffer) (e : Editor)
      → Buffer.IsValid b
      → IsValid src e
      → IsValid src (record e { buf = b })
  with_buf b e h v = record {
    buf_valid = h;
    nav_valid = v.nav_valid;
    completions_valid = v.completions_valid;
    search_valid = v.search_valid;
  }

  edited : (c : Edit) (e : Editor) → IsValid src e → IsValid src (record e { buf = apply c e.buf })
  edited c e v = with_buf (apply c e.buf) e (edit_refines c e.buf v.buf_valid).0 v

  shown : (s : Text) (e : Editor) → IsValid src e → IsValid src (show_text s e)
  shown s e v =
      with_buf (Buffer.end (Buffer.set_text s e.buf)) e (end-IsValid (Buffer.set_text s e.buf)) v

-- What a key in a search leaves: a valid buffer and a match within the entries.
record StepFine (src : Source) (r : SearchStep) : Type 0 where
  buf_fine : Buffer.IsValid r.buf
  idx_fine : IdxIn src r.search.idx

module _ (to_lower : Text → Text) (complete : Text → Bool → Text → List Text) (src : Source) where
  -- The key does not panic.
  abbrev StepsOn : Option SearchStep → Type 0
  StepsOn o = (r : SearchStep) × (o ≡ some r) × StepFine src r

  search_on-StepsOn :
      (b : Buffer) (o : Option Search)
      → Buffer.IsValid b
      → GoesOn to_lower src o
      → StepsOn (search_on to_lower complete src b o)
  unfolding search_on
  search_on-StepsOn b o v (s, is, h) = (
    record { is_done = false; is_accepted = false; line = []; search = s; buf = b },
    rw (is, search_on),
    record { buf_fine = v; idx_fine = h },
  )

  after_next-GoesOn :
      (s : Search)
      → IdxIn src s.idx
      → GoesOn to_lower src (after_next to_lower complete src (Search.next to_lower src s))
  unfolding after_next
  after_next-GoesOn s h =
      let (r, is, h') = next-MovesTo to_lower src s h in (r.1, rw (is, after_next), h')

  search_key_fine :
      (s : Search) (key : Key) (stash : Text) (b : Buffer)
      → IdxIn src s.idx
      → Buffer.IsValid b
      → StepsOn (handle_search_key to_lower complete src s key stash b)
  unfolding handle_search_key
  search_key_fine s Key.enter stash b h v =
      let (match, is) = current-some src s h in
      elim (Bool-cases (text_eq match [])) [
        | inl e ↦ (
          search_off to_lower complete src s b,
          rw (is, e, handle_search_key),
          unfold search_off in record { buf_fine = v; idx_fine = h },
        )
        | inr e ↦ (
          record { is_done = true; is_accepted = true; line = match; search = s; buf = b },
          rw (is, e, handle_search_key),
          record { buf_fine = v; idx_fine = h },
        )
      ]
  search_key_fine s Key.ctrl_c stash b h v = (
    search_off to_lower complete src s b,
    refl,
    unfold search_off in record { buf_fine = v; idx_fine = h },
  )
  search_key_fine s Key.esc stash b h v = (
    search_off to_lower complete src s b,
    refl,
    unfold search_off in record { buf_fine = v; idx_fine = h },
  )
  search_key_fine s Key.ctrl_r stash b h v = search_on-StepsOn b _ v (after_next-GoesOn s h)
  search_key_fine s Key.backspace stash b h v =
      search_on-StepsOn b _ v (backspace-GoesOn to_lower src s)
  search_key_fine s (Key.rune r) stash b h v =
      search_on-StepsOn b _ v (append_query-GoesOn to_lower src r s)
  search_key_fine s _ stash b h v =
      let (match, is) = current-some src s h in
      let b' : Buffer =
        Buffer.end (Buffer.set_text (if text_eq match [] then stash else match) b) in
      (
        search_off to_lower complete src s b',
        rw (is, handle_search_key),
        unfold search_off in
            record {
              buf_fine =
                  end-IsValid (Buffer.set_text (if text_eq match [] then stash else match) b);
              idx_fine = h;
            },
      )

module _ (to_lower : Text → Text) (complete : Text → Bool → Text → List Text) (src : Source) where
  step_search-Fine :
      (s : Search) (key : Key) (e : Editor)
      → IdxIn src s.idx
      → IsValid src e
      → Fine src (step_search to_lower complete src s key e)
  unfolding step_search
  step_search-Fine s key e h v =
      let (r, is, f) =
        search_key_fine to_lower complete src s key e.search_stash e.buf h v.buf_valid in
      elim (Bool-cases r.is_done) [
        | inl d ↦ elim (Bool-cases r.is_accepted) [
          | inl a ↦ rw (is, d, a, step_search) tt
          | inr a ↦
              rw (is, d, a, step_search)
                (shown src e.search_stash (record e { buf = r.buf; search = none })
                  (record {
                    buf_valid = f.buf_fine;
                    nav_valid = v.nav_valid;
                    completions_valid = v.completions_valid;
                    search_valid = tt;
                  }))
        ]
        | inr d ↦
            rw (is, d, step_search)
              (record {
                buf_valid = f.buf_fine;
                nav_valid = v.nav_valid;
                completions_valid = v.completions_valid;
                search_valid = f.idx_fine;
              })
      ]

  in_range_some : (cs : List Text) (i : ℕ) → i < length cs → (c : Text) × (get_elem? cs i ≡ some c)
  in_range_some [] i h = absurd (omega arith)
  in_range_some (c ∷ cs) zero h = (c, refl)
  in_range_some (c ∷ cs) (suc i) h = in_range_some cs i (omega arith)

  write-Fine :
      (t : Token) (o : Option Text) (e : Editor)
      → o ≢ none
      → IsValid src e
      → Fine src (write_candidate to_lower complete src t o e)
  unfolding write_candidate
  write-Fine t none e ne v = absurd (ne refl)
  write-Fine t (some chosen) e ne v = record {
    buf_valid = set_cursor-IsValid (t.start + length chosen) (
        Buffer.set_text
          (take t.start e.buf.runes ++ (chosen ++ drop (t.start + length t.text) e.buf.runes))
          e.buf);
    nav_valid = v.nav_valid;
    completions_valid = v.completions_valid;
    search_valid = v.search_valid;
  }

  fresh-Fine :
      (t : Token) (cands : List Text) (e : Editor)
      → IsValid src e
      → Fine src (fresh_tab to_lower complete src t cands e)
  unfolding fresh_tab
  fresh-Fine t [] e v = record {
    buf_valid = v.buf_valid;
    nav_valid = v.nav_valid;
    completions_valid = tt;
    search_valid = v.search_valid;
  }
  fresh-Fine t (c ∷ cands) e v =
      write-Fine t (some c)
        (record e {
          completions = some (c ∷ cands);
          completion_idx = 0;
          completion_start = t.start;
        })
        (λ h. cc)
        (record {
          buf_valid = v.buf_valid;
          nav_valid = v.nav_valid;
          completions_valid = omega arith;
          search_valid = v.search_valid;
        })
