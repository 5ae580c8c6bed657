-- ===== src/Primitives/Values/Printed.antt =====
-- primitives/primitives.go: what BitcoinValueToString writes.
use Prim.Native.Nat.{◌/◌, ◌%◌, ◌^◌}
-- The number that digits spell, after those that spell the first argument.
use gobalance.Common.{
  ltb, leb, eqb, if◌then◌else◌, Bool-cases, All, length, length-append, Int64, int64_size,
  is_negative, ℕ, zero, suc, ◌+◌, ◌-◌, ◌*◌, ◌≡◌, refl, ◌∙◌, subst, inl, inr, true, false, List, [],
  ◌∷◌, ◌++◌, arith,
}
use gobalance.Primitives.Values.{
  bitcoin_value_to_string, format_int, abs, zeroes, with_point, decimal_point, digits,
}

abbrev pub spelled : ℕ → List ℕ → ℕ
spelled before [] = before
spelled before (c ∷ cs) = spelled (before * 10 + (c - b'0')) cs

abbrev pub AllDigits : List ℕ → Type 0
AllDigits cs = All (λ c. (leb b'0' c ≡ true) × (leb c b'9' ≡ true)) cs

spelled-append :
    (before : ℕ) (xs ys : List ℕ) → spelled before (xs ++ ys) ≡ spelled (spelled before xs) ys
spelled-append before [] ys = refl
spelled-append before (x ∷ xs) ys = spelled-append (before * 10 + (x - b'0')) xs ys

AllDigits-append : (xs ys : List ℕ) → AllDigits xs → AllDigits ys → AllDigits (xs ++ ys)
AllDigits-append [] ys h k = k
AllDigits-append (x ∷ xs) ys h k = (h.0, AllDigits-append xs ys h.1 k)

AllDigits-split : (xs ys : List ℕ) → AllDigits (xs ++ ys) → AllDigits xs × AllDigits ys
AllDigits-split [] ys h = (tt, h)
AllDigits-split (x ∷ xs) ys h = let (p, q) = AllDigits-split xs ys h.1 in ((h.0, p), q)

digits-AllDigits : (most n : ℕ) → AllDigits (digits most n)
unfolding digits
digits-AllDigits zero n = tt
digits-AllDigits (suc most) n = elim (Bool-cases (ltb n 10)) [
  | inl low ↦ rw (low, digits) ((ground (arith, low), ground (arith, low)), tt)
  | inr high ↦
      rw (high, digits)
        (AllDigits-append (digits most (n / 10)) ((b'0' + n % 10) ∷ [])
          (digits-AllDigits most (n / 10)) ((ground arith, ground arith), tt))
]

tenth : (n most : ℕ) → ltb n (10 ^ suc most) ≡ true → ltb (n / 10) (10 ^ most) ≡ true
tenth n most h = ground (arith, h)

spelled-digits : (most n : ℕ) → ltb n (10 ^ most) ≡ true → spelled 0 (digits most n) ≡ n
unfolding digits
spelled-digits zero n h = ground (arith, h)
spelled-digits (suc most) n h = elim (Bool-cases (ltb n 10)) [
  | inl low ↦ rw (low, digits) (omega arith)
  | inr high ↦
      rw (high, digits, spelled-append 0 (digits most (n / 10)) ((b'0' + n % 10) ∷ []))
        (rw (spelled-digits most (n / 10) (tenth n most h)) (omega arith))
]

digits-nonempty : (most n : ℕ) → ltb 0 (length (digits (suc most) n)) ≡ true
unfolding digits
digits-nonempty most n = elim (Bool-cases (ltb n 10)) [
  | inl low ↦ rw (low, digits) refl
  | inr high ↦
      rw (high, digits, length-append (digits most (n / 10)) ((b'0' + n % 10) ∷ [])) (ground arith)
]

spelled-zeroes : (n : ℕ) (text : List ℕ) → spelled 0 (zeroes n ++ text) ≡ spelled 0 text
unfolding zeroes
spelled-zeroes zero text = refl
spelled-zeroes (suc n) text = spelled-zeroes n text

zeroes-AllDigits : (n : ℕ) → AllDigits (zeroes n)
unfolding zeroes
zeroes-AllDigits zero = tt
zeroes-AllDigits (suc n) = ((refl, refl), zeroes-AllDigits n)

length-zeroes : (n : ℕ) → length (zeroes n) ≡ n
unfolding zeroes
length-zeroes zero = refl
length-zeroes (suc n) = omega (arith, length-zeroes n)

with_point-after :
    (size index : ℕ) (text : List ℕ)
    → index + length text ≡ size
    → ltb (length text) decimal_point ≡ true
    → with_point size index text ≡ text
unfolding with_point
with_point-after size index [] e h = refl
with_point-after size index (c ∷ text) e h =
    let apart : eqb (size - index) decimal_point ≡ false = ground (arith, h) in
    rw (apart, with_point-after size (index + 1) text (omega arith) (ground (arith, h))) refl

with_point-splits :
    (size index : ℕ) (text : List ℕ)
    → index + length text ≡ size
    → leb decimal_point (length text) ≡ true
    → (whole : List ℕ) × (fraction : List ℕ) × (with_point size index text
        ≡ whole ++ (b'.' ∷ fraction))
      × (text ≡ whole ++ fraction)
      × (length fraction ≡ decimal_point)
unfolding with_point
with_point-splits size index [] e h = absurd (ground arith)
with_point-splits size index (c ∷ text) e h = elim (Bool-cases (eqb (size - index) decimal_point)) [
  | inl here ↦ (
    [],
    c ∷ text,
    rw (here, with_point-after size (index + 1) text (omega arith) (ground (arith, here))) refl,
    refl,
    ground (arith, here),
  )
  | inr there ↦
      let (whole, fraction, pointed, same, eight) =
        with_point-splits size (index + 1) text (omega arith) (ground (arith, there)) in
      (c ∷ whole, fraction, rw (there, pointed) refl, cc same, eight)
]

-- -v where v is negative
abbrev pub magnitude : Int64 → ℕ
magnitude v = if is_negative v then int64_size - v else v

abbrev pub sign_of : Int64 → List ℕ
sign_of v = if is_negative v then b'-' ∷ [] else []

-- What BitcoinValueToString writes for a number and a sign.
abbrev pub Prints : ℕ → List ℕ → List ℕ → Type 0
Prints n sign text =
    (whole : List ℕ) × (fraction : List ℕ) × (text ≡ sign ++ (whole ++ (b'.' ∷ fraction)))
    × (spelled 0 (whole ++ fraction) ≡ n)
    × AllDigits whole
    × AllDigits fraction
    × (ltb 0 (length whole) ≡ true)
    × (length fraction ≡ decimal_point)

whole_there :
    (text whole fraction : List ℕ)
    → text ≡ whole ++ fraction
    → length fraction ≡ decimal_point
    → leb (length text) decimal_point ≡ false
    → ltb 0 (length whole) ≡ true
whole_there text whole fraction same eight long =
    let e : length text ≡ length (whole ++ fraction) = cc same in
    ground (arith, long, e, length-append whole fraction)

split-Prints :
    (n : ℕ) (sign : List ℕ)
    → ltb n (10 ^ 20) ≡ true
    → leb (length (digits 20 n)) decimal_point ≡ false
    → Prints n sign (sign ++ with_point (length (digits 20 n)) 0 (digits 20 n))
split-Prints n sign small long =
    let text = digits 20 n in
    let (whole, fraction, pointed, same, eight) =
      with_point-splits (length text) 0 text (omega arith) (ground (arith, long)) in
    let (left, right) =
      AllDigits-split whole fraction (subst AllDigits same (digits-AllDigits 20 n)) in
    (
      whole,
      fraction,
      cc pointed,
      cc (same, spelled-digits 20 n small),
      left,
      right,
      whole_there text whole fraction same eight long,
      eight,
    )

short-Prints :
    (n : ℕ) (sign : List ℕ)
    → ltb n (10 ^ 20) ≡ true
    → leb (length (digits 20 n)) decimal_point ≡ true
    → Prints n sign
        (sign ++ (b'0' ∷ b'.' ∷ (zeroes (decimal_point - length (digits 20 n)) ++ digits 20 n)))
short-Prints n sign small short =
    let text = digits 20 n in
    let more = decimal_point - length text in
    (
      b'0' ∷ [],
      zeroes more ++ text,
      refl,
      spelled-zeroes more text ∙ spelled-digits 20 n small,
      ((refl, refl), tt),
      AllDigits-append (zeroes more) text (zeroes-AllDigits more) (digits-AllDigits 20 n),
      refl,
      length-append (zeroes more) text ∙ (rw (length-zeroes more) (ground (arith, short))),
    )

abs-magnitude : (v : Int64) → ltb v int64_size ≡ true → abs v ≡ magnitude v
unfolding abs
abs-magnitude v small = ground (arith, small)

magnitude-positive :
    (v : Int64)
    → ltb v int64_size ≡ true
    → eqb v 9223372036854775808 ≡ false
    → is_negative (magnitude v) ≡ false
magnitude-positive v small least = ground (arith, small, least)

format_int-abs :
    (v : Int64)
    → ltb v int64_size ≡ true
    → eqb v 9223372036854775808 ≡ false
    → format_int (abs v) ≡ digits 20 (magnitude v)
unfolding format_int
format_int-abs v small least =
    rw (abs-magnitude v small, magnitude-positive v small least, format_int) refl

-- For every value but the least int64: the text is a minus sign if the value is negative, then a
-- whole part of at least one digit, the point, and eight digits; read without the point, the
-- digits are the absolute value.
pub bitcoin_value_to_string-Prints :
    (v : Int64)
    → ltb v int64_size ≡ true
    → eqb v 9223372036854775808 ≡ false
    → Prints (magnitude v) (sign_of v) (bitcoin_value_to_string v)
unfolding bitcoin_value_to_string
bitcoin_value_to_string-Prints v small least =
    let text = digits 20 (magnitude v) in
    let low : ltb (magnitude v) (10 ^ 20) ≡ true = ground (arith, small) in
    elim (Bool-cases (leb (length text) decimal_point)) [
      | inl short ↦
          rw (format_int-abs v small least, short)
            (short-Prints (magnitude v) (sign_of v) low short)
      | inr long ↦
          rw (format_int-abs v small least, long) (split-Prints (magnitude v) (sign_of v) low long)
    ]
