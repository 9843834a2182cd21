-- ===== src/Base/Decimal.antt =====
-- Package strconv as the service uses it: `ParseInt(s, 10, 64)` and `FormatInt(n, 10)`.
use Prim.Native.Char.{Char, code}
use Prim.Native.String as Text
use package.shinzo_scheduler_service.Base.{
  ℕ, zero, suc, ◌+◌, ◌-◌, ◌*◌, ◌/◌, ◌%◌, ◌^◌, ◌<◌, String, ◌≡◌, refl, ap, sym, ◌∙◌, subst, Bool,
  true, ◌&&◌, not, Bool-cases, inl, inr, Option, none, some, nat_eq, ltb, leb, if◌then◌else◌, arith,
}
use package.shinzo_scheduler_service.Base.Int.{ℤ, pos, negsuc, ◌-ℤ◌}

abbrev digit : ℕ → Char
digit n = Text.char_at "0123456789" n

-- The digits in front of a text. A number below 10^20 has no more than 20 of them.
unfoldable digits_of : ℕ → ℕ → String → String
digits_of zero n acc = acc
digits_of (suc fuel) n acc =
    let more = digits_of fuel (n / 10) (String.◌∷◌ (digit (n % 10)) acc) in
    if ltb n 10 then String.◌∷◌ (digit (n % 10)) acc else more

unfoldable pub format_int : ℤ → String
unfolding digits_of
format_int (pos n) = digits_of 20 n ""
format_int (negsuc n) = String.◌∷◌ (Text.char_at "-" 0) (digits_of 20 (suc n) "")

unfoldable digits : ℕ → String → Option ℕ
digits n String.[] = some n
digits n (String.◌∷◌ ch rest) =
    let more = digits (n * 10 + (code ch - 48)) rest in
    if leb 48 (code ch) && leb (code ch) 57 then more else none

unfoldable unsigned : String → Option ℕ
unfolding digits
unsigned String.[] = none
unsigned (String.◌∷◌ ch rest) = digits 0 (String.◌∷◌ ch rest)

abbrev positive : Option ℕ → Option ℤ
positive none = none
positive (some n) = if ltb n (2 ^ 63) then some (pos n) else none

abbrev negative : Option ℕ → Option ℤ
negative none = none
negative (some n) = if leb n (2 ^ 63) then some (pos 0 -ℤ pos n) else none

unfoldable pub parse_int : String → Option ℤ
unfolding unsigned
parse_int String.[] = none
parse_int (String.◌∷◌ ch rest) =
    if nat_eq (code ch) 45
    then negative (unsigned rest)
    else if nat_eq (code ch) 43
    then positive (unsigned rest)
    else positive (unsigned (String.◌∷◌ ch rest))

code-digit : (n : ℕ) → n < 10 → code (digit n) ≡ 48 + n
code-digit zero h = refl
code-digit (suc zero) h = refl
code-digit (suc (suc zero)) h = refl
code-digit (suc (suc (suc zero))) h = refl
code-digit (suc (suc (suc (suc zero)))) h = refl
code-digit (suc (suc (suc (suc (suc zero))))) h = refl
code-digit (suc (suc (suc (suc (suc (suc zero)))))) h = refl
code-digit (suc (suc (suc (suc (suc (suc (suc zero))))))) h = refl
code-digit (suc (suc (suc (suc (suc (suc (suc (suc zero)))))))) h = refl
code-digit (suc (suc (suc (suc (suc (suc (suc (suc (suc zero))))))))) h = refl
code-digit (suc (suc (suc (suc (suc (suc (suc (suc (suc (suc n)))))))))) h = absurd (omega arith)

digits-digit :
    (m d : ℕ) (acc : String)
    → d < 10
    → digits m (String.◌∷◌ (digit d) acc) ≡ digits (m * 10 + d) acc
unfolding digits
digits-digit m d acc h =
    let same : m * 10 + (48 + d - 48) ≡ m * 10 + d = omega arith in
    rw (code-digit d h, same) (ground arith)

-- How many numbers have no more digits than this.
abbrev numbers : ℕ → ℕ
numbers zero = 1
numbers (suc k) = numbers k * 10

digits-digits_of :
    (fuel n : ℕ) (acc : String) → n < numbers fuel → digits 0 (digits_of fuel n acc) ≡ digits n acc
unfolding digits_of
digits-digits_of zero n acc h = ap (λ k. digits k acc) (omega arith)
digits-digits_of (suc fuel) n acc h = elim (Bool-cases (ltb n 10)) [
  | inl small ↦
      rw small (digits-digit 0 (n % 10) acc (omega arith) ∙ ap (λ k. digits k acc) (ground arith))
  | inr large ↦ rw large (
      digits-digits_of fuel (n / 10) (String.◌∷◌ (digit (n % 10)) acc) (omega arith)
      ∙ (digits-digit (n / 10) (n % 10) acc (omega arith) ∙ ap (λ k. digits k acc) (omega arith)))
]

-- The digits of a number do not begin with a sign.
begins_with_digit :
    (fuel n : ℕ) (acc : String)
    → (d : ℕ) × (rest : String) × (d < 10)
      × (digits_of (suc fuel) n acc ≡ String.◌∷◌ (digit d) rest)
unfolding digits_of
begins_with_digit zero n acc = (n % 10, acc, omega arith, ground arith)
begins_with_digit (suc fuel) n acc = elim (Bool-cases (ltb n 10)) [
  | inl small ↦ (n % 10, acc, omega arith, rw small refl)
  | inr large ↦ rw large (begins_with_digit fuel (n / 10) (String.◌∷◌ (digit (n % 10)) acc))
]

parse_digit :
    (d : ℕ) (rest : String)
    → d < 10
    → parse_int (String.◌∷◌ (digit d) rest) ≡ positive (digits 0 (String.◌∷◌ (digit d) rest))
unfolding parse_int
parse_digit d rest h = rw (code-digit d h) (ground arith)

parse-digits_of : (n : ℕ) → n < numbers 20 → parse_int (digits_of 20 n "") ≡ positive (some n)
unfolding digits
parse-digits_of n h =
    let (d, rest, small, e) = begins_with_digit 19 n "" in
    subst (λ s. parse_int s ≡ positive (digits 0 s)) (sym e) (parse_digit d rest small)
    ∙ ap positive (digits-digits_of 20 n "" h)

-- A number that an `int64` holds is read back from its text.
pub parse_int-format_int : (n : ℕ) → n < 2 ^ 63 → parse_int (format_int (pos n)) ≡ some (pos n)
unfolding format_int
parse_int-format_int n h = parse-digits_of n (omega arith) ∙ ground arith

-- The text has no character with this number.
abbrev pub lacks : ℕ → String → Bool
lacks x String.[] = true
lacks x (String.◌∷◌ ch rest) = not (nat_eq (code ch) x) && lacks x rest

lacks-digit :
    (x d : ℕ) (rest : String) → x < 48 → d < 10 → lacks x (String.◌∷◌ (digit d) rest) ≡ lacks x rest
lacks-digit x d rest low small = rw (code-digit d small) (ground arith)

lacks-digits_of :
    (x fuel n : ℕ) (acc : String) → x < 48 → lacks x (digits_of fuel n acc) ≡ lacks x acc
unfolding digits_of
lacks-digits_of x zero n acc low = refl
lacks-digits_of x (suc fuel) n acc low = elim (Bool-cases (ltb n 10)) [
  | inl small ↦ rw small (lacks-digit x (n % 10) acc low (omega arith))
  | inr large ↦ rw large (
      lacks-digits_of x fuel (n / 10) (String.◌∷◌ (digit (n % 10)) acc) low
      ∙ lacks-digit x (n % 10) acc low (omega arith))
]

pub lacks-format_int : (x n : ℕ) → x < 48 → lacks x (format_int (pos n)) ≡ true
unfolding format_int
lacks-format_int x n low = lacks-digits_of x 20 n "" low
