-- ===== src/Term/Editor/Valid/Steps.antt =====
-- Every key, and every sequence of keys, keeps the editor valid.
use aish.Prelude.{
  ℕ, ◌+◌, ◌%◌, ◌≤◌, ◌<◌, ◌≡◌, ◌≢◌, refl, inl, inr, Bool, ◌&&◌, Option, none, some, List, [], ◌++◌,
  ◌==◌, arith, if◌then◌else◌, length, get_elem?, Text, text_eq, Bool-cases,
}
use aish.Term.Buffer.{Token, token_at_cursor}
use aish.Term.Buffer.Edits
use aish.Term.Buffer.Edits.{Edit, apply}
use aish.Term.History
use aish.Term.History.{Source, HistoryNav, Shown, suggest}
use aish.Term.History.Walk.{up_down_lem}
use aish.Term.History.Ghost.{suggest-some}
use aish.Term.Search.{Search}
use aish.Term.Editor.Keys.{Key, is_tab}
use aish.Term.Editor.{
  Editor, panic, step_tab, offer_ghost, recall, dispatch, forget_in, step_in, step,
}
use aish.Term.Editor.Valid.{
  IsValid, Fine, SearchIn, edited, shown, step_search-Fine, in_range_some, write-Fine, fresh-Fine,
}

module _ (to_lower : Text → Text) (complete : Text → Bool → Text → List Text) (src : Source) where
  tab-Fine :
      (t : Token) (e : Editor) (o : Option (List Text))
      → e.completions ≡ o
      → IsValid src e
      → Fine src (step_tab to_lower complete src t e)
  unfolding step_tab
  tab-Fine t e none is v =
      rw (is, step_tab)
        (fresh-Fine to_lower complete src t (complete t.text t.is_first e.buf.runes) e v)
  tab-Fine t e (some cands) is v =
      elim (Bool-cases (t.start == e.completion_start && text_eq t.text e.completion_token)) [
        | inr again ↦
            rw (is, again, step_tab)
              (fresh-Fine to_lower complete src t (complete t.text t.is_first e.buf.runes) e v)
        | inl again ↦
            let old : e.completion_idx < length cands = rw is at v.completions_valid in
            let i : ℕ = (e.completion_idx + 1) % length cands in
            let fits : i < length cands = grind arith in
            let (c, found) = in_range_some to_lower complete src cands i fits in
            rw (is, again, step_tab)
              (write-Fine to_lower complete src t (get_elem? cands i)
                (record e { completion_idx = i }) (λ h. cc)
                (record {
                  buf_valid = v.buf_valid;
                  nav_valid = v.nav_valid;
                  completions_valid = rw is fits;
                  search_valid = v.search_valid;
                }))
      ]

  recall-Fine :
      (r : Shown × HistoryNav) (e : Editor)
      → r.0 ≢ Shown.panic
      → r.1.idx ≤ length src
      → IsValid src e
      → Fine src (recall to_lower complete src r e)
  unfolding recall
  recall-Fine (Shown.line s, nav) e ne h v =
      shown src s (record e { nav = nav })
        (record {
          buf_valid = v.buf_valid;
          nav_valid = h;
          completions_valid = v.completions_valid;
          search_valid = v.search_valid;
        })
  recall-Fine (Shown.nothing, nav) e ne h v = record {
    buf_valid = v.buf_valid;
    nav_valid = h;
    completions_valid = v.completions_valid;
    search_valid = v.search_valid;
  }
  recall-Fine (Shown.panic, nav) e ne h v = absurd (ne refl)

  up_fine :
      (nav : HistoryNav)
      → nav.idx ≤ length src
      → ((History.up src nav).0 ≢ Shown.panic) × ((History.up src nav).1.idx ≤ length src)
  up_fine nav h =
      let l = up_down_lem src nav (record { within = h }) in (λ p. ground (arith, l.0), l.2.within)

  down_fine :
      (nav : HistoryNav)
      → nav.idx ≤ length src
      → ((History.down src nav).0 ≢ Shown.panic) × ((History.down src nav).1.idx ≤ length src)
  down_fine nav h =
      let l = up_down_lem src nav (record { within = h }) in (λ p. ground (arith, l.1), l.3.within)

  stashed_in :
      (s : Text) (nav : HistoryNav)
      → nav.idx ≤ length src
      → (if nav.idx == length src then History.stash src s nav else nav).idx ≤ length src
  unfolding History.stash
  stashed_in s nav h = ground arith

  ghost-Fine :
      (s : Text) (e e' : Editor)
      → IsValid src e
      → IsValid src e'
      → Fine src (offer_ghost to_lower complete src (suggest src s) e e')
  unfolding offer_ghost
  ghost-Fine s e e' v v' =
      let (g, is) = suggest-some src s in
      elim (Bool-cases (text_eq g [])) [
        | inl h ↦ rw (is, h, offer_ghost) v'
        | inr h ↦ rw (is, h, offer_ghost) (shown src (e.buf.runes ++ g) e v)
      ]

  dispatch-Fine :
      (key : Key) (e : Editor) → IsValid src e → Fine src (dispatch to_lower complete src key e)
  unfolding dispatch apply
  dispatch-Fine Key.enter e v = tt
  dispatch-Fine Key.ctrl_c e v = tt
  dispatch-Fine Key.ctrl_d e v = elim (Bool-cases (length e.buf.runes == 0)) [
    | inl h ↦ rw h tt
    | inr h ↦ rw h (edited src Edits.del e v)
  ]
  dispatch-Fine Key.backspace e v = edited src Edits.rub_out e v
  dispatch-Fine Key.delete e v = edited src Edits.del e v
  dispatch-Fine Key.ctrl_a e v = edited src Edits.to_home e v
  dispatch-Fine Key.home e v = edited src Edits.to_home e v
  dispatch-Fine Key.ctrl_e e v = edited src Edits.to_end e v
  dispatch-Fine Key.end e v = edited src Edits.to_end e v
  dispatch-Fine Key.ctrl_b e v = edited src Edits.left e v
  dispatch-Fine Key.left e v = edited src Edits.left e v
  dispatch-Fine Key.ctrl_f e v =
      ghost-Fine e.buf.runes e (record e { buf = apply Edits.right e.buf }) v
        (edited src Edits.right e v)
  dispatch-Fine Key.right e v = elim (Bool-cases (e.buf.cursor == length e.buf.runes)) [
    | inl h ↦ rw h (ghost-Fine e.buf.runes e e v v)
    | inr h ↦ rw h (edited src Edits.right e v)
  ]
  dispatch-Fine Key.ctrl_u e v = edited src Edits.to_start e v
  dispatch-Fine Key.ctrl_w e v = edited src Edits.word e v
  dispatch-Fine Key.up e v =
      let nav : HistoryNav =
        if e.nav.idx == length src then History.stash src e.buf.runes e.nav else e.nav in
      let (ne, h) = up_fine nav (stashed_in e.buf.runes e.nav v.nav_valid) in
      recall-Fine (History.up src nav) e ne h v
  dispatch-Fine Key.down e v =
      let (ne, h) = down_fine e.nav v.nav_valid in recall-Fine (History.down src e.nav) e ne h v
  dispatch-Fine Key.tab e v = tab-Fine (token_at_cursor e.buf) e e.completions refl v
  dispatch-Fine Key.ctrl_r e v = record {
    buf_valid = v.buf_valid;
    nav_valid = v.nav_valid;
    completions_valid = v.completions_valid;
    search_valid = tt;
  }
  dispatch-Fine Key.esc e v = v
  dispatch-Fine (Key.rune r) e v = edited src (Edits.insert r) e v
  dispatch-Fine Key.unknown e v = v

  forget_in-IsValid :
      (o : Option (List Text)) (key : Key) (e : Editor)
      → IsValid src e
      → IsValid src (forget_in to_lower complete src o key e)
  unfolding forget_in
  forget_in-IsValid none key e v = v
  forget_in-IsValid (some cands) key e v = elim (Bool-cases (is_tab key)) [
    | inl t ↦ rw t v
    | inr t ↦ rw t (record {
      buf_valid = v.buf_valid;
      nav_valid = v.nav_valid;
      completions_valid = tt;
      search_valid = v.search_valid;
    })
  ]

  step_in-Fine :
      (o : Option Search) (key : Key) (e : Editor)
      → SearchIn src o
      → IsValid src e
      → Fine src (step_in to_lower complete src o key e)
  unfolding step_in
  step_in-Fine none key e h v = dispatch-Fine key e v
  step_in-Fine (some s) key e h v = step_search-Fine to_lower complete src s key e h v

  pub step-Fine :
      (key : Key) (e : Editor) → IsValid src e → Fine src (step to_lower complete src key e)
  unfolding step
  step-Fine key e v =
      step_in-Fine e.search key (forget_in to_lower complete src e.completions key e) v.search_valid
        (forget_in-IsValid e.completions key e v)
