-- ===== src/Prelude/Decimal.antt =====
-- `str(n)` and `int(text)` of Python over texts, and `str.strip`.
use Prim.Native.Nat.{ℕ, zero, suc, ◌+◌, ◌-◌, ◌*◌, ◌/◌, ◌%◌, ◌≤◌, ◌<◌}
use mathlib.Core.Path.{◌≡◌, refl, sym, ap, ◌∙◌, subst}
use mathlib.Core.Logic.{inl, inr}
use mathlib.Core.Bool.{Bool, true, false, ◌&&◌, ◌||◌}
use mathlib.Core.Option.{Option, none, some}
use mathlib.Core.List.{
  [], ◌∷◌, ◌++◌, reverse, reverse-append, reverse-reverse, append_assoc, append-nil,
}
use native.Mathlib.Omega.{arith}
use ohmyboring.Prelude.Tests.{◌==◌, ltb, leb, if◌then◌else◌, Bool-cases}
use ohmyboring.Prelude.Lists.{All, All-append}
use ohmyboring.Prelude.Int.{ℤ, pos, sub_ℕ}
use ohmyboring.Prelude.Texts.{Text, NonEmpty, newline, split_lines}

-- `str.isspace` of one character.
unfoldable pub is_space : ℕ → Bool
is_space c =
    (leb 9 c && leb c 13)
    || (leb 28 c && leb c 32)
    || c == 133
    || c == 160
    || c == 5760
    || (leb 8192 c && leb c 8202)
    || c == 8232
    || c == 8233
    || c == 8239
    || c == 8287
    || c == 12288

unfoldable pub lstrip : Text → Text
unfolding is_space
lstrip [] = []
lstrip (c ∷ s) = let rest = lstrip s in if is_space c then rest else c ∷ s

unfoldable pub strip : Text → Text
unfolding lstrip
strip s = reverse (lstrip (reverse (lstrip s)))

-- The digits of `int(text)`: one underscore may stand between two of them. `seen` says that the
-- last character was a digit. Digits other than 0 to 9 are not read.
unfoldable pub digits_value : Bool → ℕ → Text → Option ℕ
digits_value seen acc [] = if seen then some acc else none
digits_value seen acc (c ∷ s) =
    let value = digits_value true (acc * 10 + (c - 48)) s in
    let gap = digits_value false acc s in
    if leb 48 c && leb c 57 then value else if c == 95 && seen then gap else none

abbrev signed : Bool → Option ℕ → Option ℤ
signed minus none = none
signed minus (some n) = if minus then some (sub_ℕ 0 n) else some (pos n)

abbrev signed_value : Text → Option ℤ
signed_value [] = none
signed_value (c ∷ s) =
    if c == b'-'
    then signed true (digits_value false 0 s)
    else if c == b'+'
    then signed false (digits_value false 0 s)
    else signed false (digits_value false 0 (c ∷ s))

-- `int(text)`, where `none` is the ValueError.
unfoldable pub parse_int : Text → Option ℤ
unfolding digits_value strip
parse_int s = signed_value (strip s)

show_digits : ℕ → ℕ → Text
show_digits zero n = (48 + n % 10) ∷ []
show_digits (suc fuel) n =
    let front = show_digits fuel (n / 10) in
    if ltb n 10 then (48 + n) ∷ [] else front ++ (48 + n % 10) ∷ []

-- `str(n)`. A number has at most as many digits as it counts.
unfoldable pub show_nat : ℕ → Text
unfolding show_digits
show_nat n = show_digits n n

digits_value-snoc :
    (seen : Bool) (acc d n : ℕ) (s : Text)
    → digits_value seen acc s ≡ some n
    → d < 10
    → digits_value seen acc (s ++ (48 + d) ∷ []) ≡ some (n * 10 + d)
unfolding digits_value
digits_value-snoc seen acc d n [] h lt = ground arith
digits_value-snoc seen acc d n (c ∷ s) h lt =
    ground
      (arith, digits_value-snoc true (acc * 10 + (c - 48)) d n s, digits_value-snoc false acc d n s)

digits_value-show_digits :
    (fuel n : ℕ) → n ≤ fuel → digits_value false 0 (show_digits fuel n) ≡ some n
unfolding show_digits
digits_value-show_digits zero n h =
    let e : n ≡ 0 = omega arith in rw e (unfold digits_value in refl)
digits_value-show_digits (suc fuel) n h = elim (Bool-cases (ltb n 10)) [
  | inl small ↦ rw small (unfold digits_value in ground arith)
  | inr large ↦
      let e : n / 10 * 10 + n % 10 ≡ n = omega arith in
      rw large (
        digits_value-snoc false 0 (n % 10) (n / 10) (show_digits fuel (n / 10))
          (digits_value-show_digits fuel (n / 10) (ground arith)) (omega arith)
        ∙ ap some e)
]

-- A text that is printed with no white space, as numbers are.
abbrev pub IsSolid : Text → Type 0
IsSolid s = NonEmpty s × All (λ c. is_space c ≡ false) s

append-NonEmpty : (s t : Text) → NonEmpty t → NonEmpty (s ++ t)
append-NonEmpty [] t h = h
append-NonEmpty (c ∷ s) t h = tt

append-IsSolid : (s t : Text) → All (λ c. is_space c ≡ false) s → IsSolid t → IsSolid (s ++ t)
append-IsSolid s t h (some_char, k) =
    (append-NonEmpty s t some_char, All-append (λ c. is_space c ≡ false) s t h k)

digit-not-is_space : (d : ℕ) → d < 10 → is_space (48 + d) ≡ false
unfolding is_space
digit-not-is_space d h = ground arith

show_digits-IsSolid : (fuel n : ℕ) → IsSolid (show_digits fuel n)
unfolding show_digits
show_digits-IsSolid zero n = (tt, (digit-not-is_space (n % 10) (omega arith), tt))
show_digits-IsSolid (suc fuel) n = elim (Bool-cases (ltb n 10)) [
  | inl small ↦ rw small (tt, (digit-not-is_space n (ground arith), tt))
  | inr large ↦ rw large (
      append-IsSolid (show_digits fuel (n / 10)) ((48 + n % 10) ∷ [])
        (show_digits-IsSolid fuel (n / 10)).1 (tt, (digit-not-is_space (n % 10) (omega arith), tt)))
]

pub show_nat-IsSolid : (n : ℕ) → IsSolid (show_nat n)
unfolding show_nat
show_nat-IsSolid n = show_digits-IsSolid n n

lstrip-IsSolid : (s t : Text) → IsSolid s → lstrip (s ++ t) ≡ s ++ t
unfolding lstrip
lstrip-IsSolid [] t h = absurd h.0
lstrip-IsSolid (c ∷ s) t h = rw h.1.0

reverse-cons : (c : ℕ) (s : Text) → reverse (c ∷ s) ≡ reverse s ++ c ∷ []
reverse-cons c s = reverse-append (c ∷ []) s

reverse-solid :
    (s : Text) → All (λ c. is_space c ≡ false) s → All (λ c. is_space c ≡ false) (reverse s)
reverse-solid [] h = tt
reverse-solid (c ∷ s) h =
    rw reverse-cons
      (All-append (λ x. is_space x ≡ false) (reverse s) (c ∷ []) (reverse-solid s h.1) (h.0, tt))

reverse-IsSolid : (s : Text) → IsSolid s → IsSolid (reverse s)
reverse-IsSolid [] h = absurd h.0
reverse-IsSolid (c ∷ s) h =
    rw reverse-cons (append-IsSolid (reverse s) (c ∷ []) (reverse-solid s h.1.1) (tt, (h.1.0, tt)))

reverse-three : (s m t : Text) → reverse (s ++ (m ++ t)) ≡ reverse t ++ (reverse m ++ reverse s)
reverse-three s m t =
    reverse-append s (m ++ t)
    ∙ ap (λ r. r ++ reverse s) (reverse-append m t)
    ∙ append_assoc (reverse t) (reverse m) (reverse s)

-- Nothing is stripped from a text that begins and ends with a solid part.
pub strip_solid : (s m t : Text) → IsSolid s → IsSolid t → strip (s ++ (m ++ t)) ≡ s ++ (m ++ t)
unfolding strip
strip_solid s m t hs ht =
    ap (λ r. reverse (lstrip (reverse r))) (lstrip-IsSolid s (m ++ t) hs)
    ∙ ap (λ r. reverse (lstrip r)) (reverse-three s m t)
    ∙ ap reverse (lstrip-IsSolid (reverse t) (reverse m ++ reverse s) (reverse-IsSolid t ht))
    ∙ ap reverse (sym (reverse-three s m t))
    ∙ reverse-reverse (s ++ (m ++ t))

pub strip-solid_self : (s : Text) → IsSolid s → strip s ≡ s
unfolding strip
strip-solid_self s h =
    ap (λ r. reverse (lstrip (reverse r))) (lstrip-self s h)
    ∙ ap reverse (lstrip-self (reverse s) (reverse-IsSolid s h))
    ∙ reverse-reverse s
  where
    lstrip-self : (t : Text) → IsSolid t → lstrip t ≡ t
    lstrip-self t k = subst (λ r. lstrip r ≡ r) (append-nil t) (lstrip-IsSolid t [] k)

signed_value-digits :
    (s : Text) (n : ℕ) → digits_value false 0 s ≡ some n → signed_value s ≡ some (pos n)
unfolding digits_value
signed_value-digits [] n h = cc
signed_value-digits (c ∷ s) n h = ground arith

-- Reading a printed number gives the number.
pub parse_int-show_nat : (n : ℕ) → parse_int (show_nat n) ≡ some (pos n)
unfolding parse_int
parse_int-show_nat n =
    ap signed_value (strip-solid_self (show_nat n) (show_nat-IsSolid n))
    ∙ signed_value-digits (show_nat n) n
        (unfold show_nat in digits_value-show_digits n n (omega arith))

-- `n` zeros in front of a text.
unfoldable pub pad : ℕ → Text → Text
pad zero s = s
pad (suc n) s = b'0' ∷ pad n s

pad-IsSolid : (n : ℕ) (s : Text) → IsSolid s → IsSolid (pad n s)
unfolding pad
pad-IsSolid zero s h = h
pad-IsSolid (suc n) s h = (tt, (digit-not-is_space 0 (omega arith), (pad-IsSolid n s h).1))

digits_value-seen :
    (s : Text) (n : ℕ) → digits_value false 0 s ≡ some n → digits_value true 0 s ≡ some n
unfolding digits_value
digits_value-seen [] n h = absurd cc
digits_value-seen (c ∷ s) n h = ground arith

digits_value-pad :
    (k n : ℕ) (s : Text) → digits_value false 0 s ≡ some n → digits_value false 0 (pad k s) ≡ some n
unfolding pad digits_value
digits_value-pad zero n s h = h
digits_value-pad (suc k) n s h = digits_value-seen (pad k s) n (digits_value-pad k n s h)

-- Reading a printed number with zeros in front of it gives the number.
pub parse_int-pad : (k n : ℕ) → parse_int (pad k (show_nat n)) ≡ some (pos n)
unfolding parse_int
parse_int-pad k n =
    ap signed_value
      (strip-solid_self (pad k (show_nat n)) (pad-IsSolid k (show_nat n) (show_nat-IsSolid n)))
    ∙ signed_value-digits (pad k (show_nat n)) n (
        digits_value-pad k n (show_nat n)
          (unfold show_nat in digits_value-show_digits n n (omega arith)))

solid-ne-newline : (c : ℕ) → is_space c ≡ false → (c == newline) ≡ false
unfolding is_space
solid-ne-newline c h = ground arith

pub split_lines-solid : (s : Text) → All (λ c. is_space c ≡ false) s → split_lines s ≡ s ∷ []
unfolding split_lines
split_lines-solid [] h = refl
split_lines-solid (c ∷ s) h = rw (solid-ne-newline c h.0, split_lines-solid s h.1)

-- A solid text in front of a line feed is the first line.
pub split_lines-append :
    (s t : Text)
    → All (λ c. is_space c ≡ false) s
    → split_lines (s ++ newline ∷ t) ≡ s ∷ split_lines t
unfolding split_lines
split_lines-append [] t h = refl
split_lines-append (c ∷ s) t h = rw (solid-ne-newline c h.0, split_lines-append s t h.1)
