-- ===== src/Env/Table.antt =====
-- The table as a map from names to values.
use aish.Prelude.{
  ◌≡◌, ◌≢◌, refl, ap, subst, ◌∙◌, inl, inr, Option, none, some, List, [], ◌∷◌, ◌++◌, ◌==◌, ==_iff,
  arith, if◌then◌else◌, Text, Rune, text_eq, text_eq_iff, cut_prefix, All, Option-cases, Bool-cases,
}
use aish.Env.{
  Env, key, set, set_in, get, get_in, unset, unset_in, split_eq, from_loop, from_slice, new_env,
}

-- A name as the shell's grammar has them: no `=` in it.
abbrev pub IsName : Text → Type 0
IsName = All (λ c. c ≢ b'=')

-- An entry of one name has no other name's prefix.
cut_key :
    (j k v : Text)
    → IsName j
    → IsName k
    → cut_prefix (key j) (key k ++ v) ≡ (if text_eq k j then some v else none)
unfolding cut_prefix text_eq
cut_key [] [] v hj hk = refl
cut_key [] (d ∷ k) v hj hk = ground (arith, ==_iff b'=' d, hk.0)
cut_key (c ∷ j) [] v hj hk = ground (arith, ==_iff c b'=', hj.0)
cut_key (c ∷ j) (d ∷ k) v hj hk = ground (arith, cut_key j k v hj.1 hk.1, ==_iff c d, ==_iff d c)

-- An entry with a name, which no later entry has.
pub record Entry (kv : Text) (later : List Text) : Type 0 where
  pub name : Text
  pub value : Text
  pub is_name : IsName name
  pub entry_is : kv ≡ key name ++ value
  pub fresh : get_in name later ≡ none

abbrev pub Entries : List Text → Type 0
Entries [] = Unit {0}
Entries (kv ∷ vars) = Entry kv vars × Entries vars

pub record IsValid (e : Env) : Type 0 where
  pub entries : Entries e.vars

cut-Entry :
    (j : Text) {kv : Text} {later : List Text} (t : Entry kv later)
    → IsName j
    → cut_prefix (key j) kv ≡ (if text_eq t.name j then some t.value else none)
cut-Entry j t h = ap (cut_prefix (key j)) t.entry_is ∙ cut_key j t.name t.value h t.is_name

get_in-set_in :
    (j k v : Text) (vars : List Text)
    → IsName j
    → IsName k
    → Entries vars
    → get_in j (set_in k v vars) ≡ (if text_eq k j then some v else get_in j vars)
unfolding get_in set_in
get_in-set_in j k v [] hj hk t = ground (arith, cut_key j k v hj hk)
get_in-set_in j k v (kv ∷ vars) hj hk t = ground (
  arith,
  cut_key j k v hj hk,
  cut-Entry j t.0 hj,
  cut-Entry k t.0 hk,
  get_in-set_in j k v vars hj hk t.1,
  text_eq_iff k j,
  text_eq_iff t.0.name k,
  text_eq_iff t.0.name j,
)

get_in-unset_in :
    (j k : Text) (vars : List Text)
    → IsName j
    → IsName k
    → Entries vars
    → get_in j (unset_in k vars) ≡ (if text_eq k j then none else get_in j vars)
unfolding get_in unset_in
get_in-unset_in j k [] hj hk t = ground arith
get_in-unset_in j k (kv ∷ vars) hj hk t = ground (
  arith,
  cut-Entry j t.0 hj,
  cut-Entry k t.0 hk,
  get_in-unset_in j k vars hj hk t.1,
  text_eq_iff k j,
  text_eq_iff t.0.name k,
  text_eq_iff t.0.name j,
  t.0.fresh,
)

Entries-set_in :
    (k v : Text) (vars : List Text) → IsName k → Entries vars → Entries (set_in k v vars)
unfolding set_in get_in
Entries-set_in k v [] hk t =
    (record { name = k; value = v; is_name = hk; entry_is = refl; fresh = refl }, tt)
Entries-set_in k v (kv ∷ vars) hk t = elim (Bool-cases (text_eq t.0.name k)) [
  | inl e ↦
      let cut : cut_prefix (key k) kv ≡ some t.0.value = cut-Entry k t.0 hk ∙ rw e in
      rw (cut, set_in)
        ((
          record {
            name = k;
            value = v;
            is_name = hk;
            entry_is = refl;
            fresh = rw (← (text_eq_iff t.0.name k).0 e) t.0.fresh;
          },
          t.1,
        ))
  | inr e ↦
      let cut : cut_prefix (key k) kv ≡ none = cut-Entry k t.0 hk ∙ rw e in
      rw (cut, set_in)
        ((
          record {
            name = t.0.name;
            value = t.0.value;
            is_name = t.0.is_name;
            entry_is = t.0.entry_is;
            fresh = ground (
              arith,
              get_in-set_in t.0.name k v vars t.0.is_name hk t.1,
              text_eq_iff k t.0.name,
              text_eq_iff t.0.name k,
            );
          },
          Entries-set_in k v vars hk t.1,
        ))
]

Entries-unset_in :
    (k : Text) (vars : List Text) → IsName k → Entries vars → Entries (unset_in k vars)
unfolding unset_in
Entries-unset_in k [] hk t = tt
Entries-unset_in k (kv ∷ vars) hk t = elim (Option-cases (cut_prefix (key k) kv)) [
  | inr (v, e) ↦ rw (e, unset_in) t.1
  | inl e ↦
      rw (e, unset_in)
        ((
          record {
            name = t.0.name;
            value = t.0.value;
            is_name = t.0.is_name;
            entry_is = t.0.entry_is;
            fresh = ground (arith, get_in-unset_in t.0.name k vars t.0.is_name hk t.1, t.0.fresh);
          },
          Entries-unset_in k vars hk t.1,
        ))
]

-- Set and Unset on a table whose entries are names with values, each name once, for a name that is
-- not empty and has no `=`: the table stays so; Get then finds the value that was set, or none
-- after Unset, and finds for every other name what it found before.
pub set_unset_lem :
    (d : Rune) (k v : Text) (c : Rune) (j : Text) (e : Env)
    → IsName (d ∷ k)
    → IsName (c ∷ j)
    → IsValid e
    → ((e' : Env) × (set (d ∷ k) v e ≡ some e')
        × IsValid e'
        × (get (c ∷ j) e' ≡ (if text_eq (d ∷ k) (c ∷ j) then some v else get (c ∷ j) e)))
      × IsValid (unset (d ∷ k) e)
      × (get (c ∷ j) (unset (d ∷ k) e) ≡ (if text_eq (d ∷ k) (c ∷ j) then none else get (c ∷ j) e))
unfolding set get unset
set_unset_lem d k v c j e hk hj t = (
  (
    record e { vars = set_in (d ∷ k) v e.vars },
    refl,
    record { entries = Entries-set_in (d ∷ k) v e.vars hk t.entries },
    get_in-set_in (c ∷ j) (d ∷ k) v e.vars hj hk t.entries,
  ),
  record { entries = Entries-unset_in (d ∷ k) e.vars hk t.entries },
  get_in-unset_in (c ∷ j) (d ∷ k) e.vars hj hk t.entries,
)

Split : Option (Text × Text) → Type 0
Split none = Unit {0}
Split (some (n, v)) = IsName n

split_eq-Split : (kv : Text) → Split (split_eq kv)
unfolding split_eq Split
split_eq-Split [] = tt
split_eq-Split (c ∷ s) = elim (Bool-cases (c == b'=')) [
  | inl e ↦ rw (e, split_eq) tt
  | inr e ↦ elim (Option-cases (split_eq s)) [
    | inl none_found ↦ rw (e, none_found, split_eq) tt
    | inr ((n, v), found) ↦
        let rest : Split (some (n, v)) = subst Split found (split_eq-Split s) in
        rw (e, found, split_eq) ((ground (arith, ==_iff c b'=')), rest)
  ]
]

from_loop-IsValid : (initial : List Text) (e : Env) → IsValid e → IsValid (from_loop initial e)
unfolding from_loop set Split
from_loop-IsValid [] e t = t
from_loop-IsValid (kv ∷ rest) e t = elim (Option-cases (split_eq kv)) [
  | inl absent ↦ rw (absent, from_loop) (from_loop-IsValid rest e t)
  | inr (([], v), found) ↦ rw (found, from_loop) (from_loop-IsValid rest e t)
  | inr ((c ∷ n, v), found) ↦
      let named : Split (some (c ∷ n, v)) = subst Split found (split_eq-Split kv) in
      rw (found, from_loop)
        (from_loop-IsValid rest (record e { vars = set_in (c ∷ n) v e.vars })
          (record { entries = Entries-set_in (c ∷ n) v e.vars named t.entries }))
]

-- FromSlice, for every list of strings, makes a table whose entries are names with values, each
-- name once.
pub from_slice-IsValid : (initial : List Text) → IsValid (from_slice initial)
unfolding from_slice
from_slice-IsValid initial = from_loop-IsValid initial new_env (record { entries = tt })
