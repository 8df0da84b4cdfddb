-- ===== src/Common/Strconv.antt =====
-- Go's strconv.ParseInt and FormatInt in base 10 at 64 bits, as the in-memory cache uses them.
use Prim.Native.Char.{Char, code}
use Prim.Native.String.{String}
use Prim.Native.Nat.{ℕ, zero, suc, ◌+◌, ◌-◌, ◌*◌, ◌/◌, ◌%◌, ◌^◌, ◌≤◌, ◌<◌}
use mathlib.Core.Path.{◌≡◌, refl, sym, ap, ◌∙◌}
use mathlib.Core.Bool.{Bool, true, false}
use mathlib.Core.Option.{Option, none, some}
use mathlib.Core.Logic.{inl, inr}
use native.Mathlib.Omega.{arith}
use native.Mathlib.Nat.{pow-suc}
use ai_website_builder.Common.Bools.{ltb, leb, nat_eq, if◌then◌else◌, Bool-cases, ltb→lt}
use ai_website_builder.Common.Text.{is_digit, ◌<>◌}

-- An int64; `negsuc n` is -(n + 1).
pub data ℤ : Type 0 where
  pos : ℕ → ℤ
  negsuc : ℕ → ℤ

abbrev pub max_int64 : ℕ
max_int64 = 2 ^ 63 - 1

abbrev pub max_uint64 : ℕ
max_uint64 = 2 ^ 64 - 1

-- n++ on an int64.
abbrev pub increment : ℤ → ℤ
increment (pos n) = if nat_eq n max_int64 then negsuc max_int64 else pos (n + 1)
increment (negsuc zero) = pos 0
increment (negsuc (suc n)) = negsuc n

-- n <= m, for a limit m that is not negative.
abbrev pub at_most : ℤ → ℕ → Bool
at_most (pos n) m = leb n m
at_most (negsuc n) m = true

-- ParseUint: a syntax error is `none`; a value out of range stops at the largest.
unfoldable pub scan : ℕ → String → Option ℕ
scan n String.[] = some n
scan n (String.◌∷◌ c s) =
    let rest = scan (n * 10 + (code c - 48)) s in
    if is_digit (code c)
    then (if ltb max_uint64 (n * 10 + (code c - 48)) then some max_uint64 else rest)
    else none

parse_uint : String → Option ℕ
parse_uint String.[] = none
parse_uint (String.◌∷◌ c s) = scan 0 (String.◌∷◌ c s)

-- The value that ParseInt returns beside an error that the caller drops.
clamp_pos : Option ℕ → ℤ
clamp_pos none = pos 0
clamp_pos (some n) = if ltb max_int64 n then pos max_int64 else pos n

clamp_neg : Option ℕ → ℤ
clamp_neg none = pos 0
clamp_neg (some zero) = pos 0
clamp_neg (some (suc n)) = if ltb max_int64 n then negsuc max_int64 else negsuc n

-- n, _ := strconv.ParseInt(s, 10, 64)
unfoldable pub parse_int : String → ℤ
unfolding parse_uint clamp_pos clamp_neg
parse_int String.[] = pos 0
parse_int (String.◌∷◌ c s) =
    if nat_eq (code c) b'-'
    then clamp_neg (parse_uint s)
    else if nat_eq (code c) b'+'
    then clamp_pos (parse_uint s)
    else clamp_pos (parse_uint (String.◌∷◌ c s))

digit : ℕ → Char
digit zero = "0"
digit (suc zero) = "1"
digit (suc (suc zero)) = "2"
digit (suc (suc (suc zero))) = "3"
digit (suc (suc (suc (suc zero)))) = "4"
digit (suc (suc (suc (suc (suc zero))))) = "5"
digit (suc (suc (suc (suc (suc (suc zero)))))) = "6"
digit (suc (suc (suc (suc (suc (suc (suc zero))))))) = "7"
digit (suc (suc (suc (suc (suc (suc (suc (suc zero)))))))) = "8"
digit n = "9"

-- The loop that writes the digits from the last to the first; a 64-bit value has 20 at most.
emit : ℕ → ℕ → String → String
emit zero n out = out
emit (suc f) n out =
    let rest = emit f (n / 10) (String.◌∷◌ (digit (n % 10)) out) in
    if ltb n 10 then String.◌∷◌ (digit n) out else rest

unfoldable pub decimal : ℕ → String
unfolding emit digit
decimal n = emit 20 n String.[]

-- strconv.FormatInt(n, 10)
unfoldable pub format_int : ℤ → String
unfolding decimal
format_int (pos n) = decimal n
format_int (negsuc n) = "-" <> decimal (n + 1)

code-digit : (d : ℕ) → d < 10 → code (digit d) ≡ 48 + d
unfolding digit
code-digit zero h = refl
code-digit (suc zero) h = refl
code-digit (suc (suc zero)) h = refl
code-digit (suc (suc (suc zero))) h = refl
code-digit (suc (suc (suc (suc zero)))) h = refl
code-digit (suc (suc (suc (suc (suc zero))))) h = refl
code-digit (suc (suc (suc (suc (suc (suc zero)))))) h = refl
code-digit (suc (suc (suc (suc (suc (suc (suc zero))))))) h = refl
code-digit (suc (suc (suc (suc (suc (suc (suc (suc zero)))))))) h = refl
code-digit (suc (suc (suc (suc (suc (suc (suc (suc (suc n))))))))) h = ground arith

is_digit-add : (d : ℕ) → d < 10 → is_digit (48 + d) ≡ true
is_digit-add d h = ground arith

not-overflows : (n : ℕ) → n ≤ max_uint64 → ltb max_uint64 n ≡ false
not-overflows n b = ground arith

scan-digit :
    (n d : ℕ) (s : String)
    → d < 10
    → n * 10 + d ≤ max_uint64
    → scan n (String.◌∷◌ (digit d) s) ≡ scan (n * 10 + d) s
unfolding scan
scan-digit n d s h b =
    let value : 48 + d - 48 ≡ d = omega arith in
    rw (code-digit d h, value, is_digit-add d h, not-overflows (n * 10 + d) b)

tenth : (f n : ℕ) → n < 10 ^ suc f → n / 10 < 10 ^ f
tenth f n h = let e = pow-suc 10 f in omega (arith, e)

emit-scan :
    (f n : ℕ) (out : String) → n < 10 ^ f → n ≤ max_uint64 → scan 0 (emit f n out) ≡ scan n out
unfolding emit
emit-scan zero n out h b = let e : n ≡ 0 = omega arith in rw e refl
emit-scan (suc f) n out h b = elim (Bool-cases (ltb n 10)) [
  | inl small ↦
      rw (small, emit)
        (scan-digit 0 n out (ltb→lt n 10 small) (omega arith)
          ∙ ap (λ (k : ℕ). scan k out) (omega arith))
  | inr big ↦
      rw (big, emit)
        (emit-scan f (n / 10) _ (tenth f n h) (omega arith)
          ∙ scan-digit (n / 10) (n % 10) out (omega arith) (omega arith)
          ∙ ap (λ (k : ℕ). scan k out) (omega arith))
]

-- A text that begins with a digit, as data.
abbrev BeginsWithDigit : String → Type 0
BeginsWithDigit s = (d : ℕ) × (rest : String) × (d < 10) × (s ≡ String.◌∷◌ (digit d) rest)

emit-BeginsWithDigit :
    (f n d : ℕ) (out : String) → d < 10 → BeginsWithDigit (emit f n (String.◌∷◌ (digit d) out))
unfolding emit
emit-BeginsWithDigit zero n d out h = (d, out, h, refl)
emit-BeginsWithDigit (suc f) n d out h = elim (Bool-cases (ltb n 10)) [
  | inl small ↦ (n, String.◌∷◌ (digit d) out, ltb→lt n 10 small, rw small)
  | inr big ↦ rw (big, emit) (emit-BeginsWithDigit f (n / 10) (n % 10) _ (omega arith))
]

decimal-BeginsWithDigit : (n : ℕ) → BeginsWithDigit (emit 20 n String.[])
unfolding emit
decimal-BeginsWithDigit n = elim (Bool-cases (ltb n 10)) [
  | inl small ↦ (n, String.[], ltb→lt n 10 small, rw small)
  | inr big ↦ rw (big, emit) (emit-BeginsWithDigit 19 (n / 10) (n % 10) _ (omega arith))
]

parse_int-unsigned :
    (c : Char) (s : String)
    → is_digit (code c) ≡ true
    → parse_int (String.◌∷◌ c s) ≡ clamp_pos (scan 0 (String.◌∷◌ c s))
unfolding parse_int
parse_int-unsigned c s h = ground arith

clamp_pos-some : (n : ℕ) → n ≤ max_int64 → clamp_pos (some n) ≡ pos n
unfolding clamp_pos
clamp_pos-some n b = ground arith

parse_int-digit :
    (d n : ℕ) (s : String)
    → d < 10
    → scan 0 (String.◌∷◌ (digit d) s) ≡ some n
    → n ≤ max_int64
    → parse_int (String.◌∷◌ (digit d) s) ≡ pos n
parse_int-digit d n s h e b =
    parse_int-unsigned (digit d) s (rw (code-digit d h) (ground arith))
    ∙ ap clamp_pos e
    ∙ clamp_pos-some n b

-- ParseInt reads back what FormatInt writes for a number that is not negative.
pub parse_int-format_int : (n : ℕ) → n ≤ max_int64 → parse_int (format_int (pos n)) ≡ pos n
unfolding format_int scan
parse_int-format_int n b =
    let (d, rest, h, e) = decimal-BeginsWithDigit n in
    rw e (
      parse_int-digit d n rest h
        (ap (scan 0) (sym e) ∙ emit-scan 20 n _ (omega arith) (omega arith)) b)
