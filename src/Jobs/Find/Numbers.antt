-- ===== src/Jobs/Find/Numbers.antt =====
-- A job specification that is printed from an id: what shell/internal/jobs/jobs.go finds for it.
use native.Mathlib.Nat.{pow-suc}
use aish.Prelude.{
  ℕ, zero, suc, ◌+◌, ◌-◌, ◌*◌, ◌/◌, ◌%◌, ◌^◌, ◌<◌, ◌≡◌, refl, ap, subst, ◌∙◌, inl, inr, true, [],
  ◌∷◌, ◌++◌, arith, ltb, Text, All-append, Bool-cases, List-cases, decimal, itoa,
}
use aish.Prelude.Int.{pos}
use aish.Jobs.{JobTable, lookup}
use aish.Jobs.Find.{is_digit, find}
use aish.Jobs.Find.Laws.{value, AllDigits, find_number}

value-append :
    (acc : ℕ) (s : Text) (d : ℕ) → value acc (s ++ d ∷ []) ≡ value acc s * 10 + (d - b'0')
value-append acc [] d = refl
value-append acc (c ∷ s) d = value-append (acc * 10 + (c - b'0')) s d

digit_lem : (d : ℕ) → d < 10 → is_digit (b'0' + d) ≡ true
digit_lem d h = ground arith

tens : (n k : ℕ) → n < k * 10 → n / 10 < k
tens n k h = omega arith

back : (n : ℕ) → (n / 10) * 10 + (b'0' + n % 10 - b'0') ≡ n
back n = omega arith

decimal-AllDigits : (fuel n : ℕ) → AllDigits (decimal fuel n)
unfolding decimal
decimal-AllDigits zero n = tt
decimal-AllDigits (suc fuel) n = elim (Bool-cases (ltb n 10)) [
  | inl e ↦ rw (e, decimal) (digit_lem n (ground arith), tt)
  | inr e ↦
      rw (e, decimal)
        (All-append (λ c. is_digit c ≡ true) (decimal fuel (n / 10)) ((b'0' + n % 10) ∷ [])
          (decimal-AllDigits fuel (n / 10)) (digit_lem (n % 10) (omega arith), tt))
]

value-decimal : (fuel n : ℕ) → n < 10 ^ fuel → value 0 (decimal fuel n) ≡ n
unfolding decimal
value-decimal zero n h = omega arith
value-decimal (suc fuel) n h = elim (Bool-cases (ltb n 10)) [
  | inl e ↦ rw (e, decimal) (omega arith)
  | inr e ↦
      let shorter = value-decimal fuel (n / 10) (tens n (10 ^ fuel) (rw (pow-suc 10 fuel) at h)) in
      rw (e, decimal)
        (value-append 0 (decimal fuel (n / 10)) (b'0' + n % 10)
          ∙ ap (λ k. k * 10 + (b'0' + n % 10 - b'0')) shorter
          ∙ back n)
]

decimal-cons : (fuel n : ℕ) → (c : ℕ) × (s : Text) × (decimal (suc fuel) n ≡ c ∷ s)
unfolding decimal
decimal-cons fuel n = elim (Bool-cases (ltb n 10)) [
  | inl e ↦ rw (e, decimal) (_, _, refl)
  | inr e ↦ elim (List-cases (decimal fuel (n / 10))) [
    | inl none_left ↦ rw (e, decimal, none_left) (_, _, refl)
    | inr (c, s, more) ↦ rw (e, decimal, more) (_, _, refl)
  ]
]

pub itoa-AllDigits : (id : ℕ) → AllDigits (itoa (pos id))
unfolding itoa
itoa-AllDigits id = decimal-AllDigits 20 id

-- The specification `%` and an id in decimal digits finds the job of that id, and nothing if the
-- table has none; the id fits 64 bits.
pub find_own_id :
    (id : ℕ) (jt : JobTable) → id < 2 ^ 63 → find (b'%' ∷ itoa (pos id)) jt ≡ lookup jt.jobs id
unfolding itoa
find_own_id id jt h =
    let (c, s, e) = decimal-cons 19 id in
    let v : value 0 (c ∷ s) ≡ id =
      subst (λ t. value 0 t ≡ id) e (value-decimal 20 id (omega (arith, h))) in
    rw e (
      (find_number c s jt (subst AllDigits e (decimal-AllDigits 20 id)) (rw v h)).1
      ∙ ap (lookup jt.jobs) v)
