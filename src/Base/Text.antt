-- ===== src/Base/Text.antt =====
-- Python's `str` and `int` on whole numbers, `str.upper` and `str.lower` on ASCII letters, and the
-- canonical text of a UUID.
use Prim.Native.Nat.{ℕ, zero, suc, ◌+◌, ◌-◌, ◌*◌, ◌/◌, ◌%◌, ◌≤◌, ◌<◌}
use Prim.Native.Char.{Char, code}
use Prim.Native.String
use Prim.Native.String.{String, ◌∷◌}
use mathlib.Core.Path.{◌≡◌, refl, ap}
use mathlib.Core.Logic.{inl, inr}
use mathlib.Core.Bool.{Bool, true, false, ◌&&◌, ◌||◌}
use mathlib.Core.List.{List, [], ◌∷◌}
use mathlib.Core.Option
use mathlib.Core.Option.{Option, none, some}
use native.Mathlib.Nat.{div-add-mod}
use native.Mathlib.Omega.{arith}
use mini_crypto_wallet.Base.Tests.{leb, ◌==◌, if◌then◌else◌, Bool-cases}
use mini_crypto_wallet.Base.Int.{ℤ, pos, negsuc, neg}

-- An f-string's pieces are joined by this.
infixr 65 ◌<>◌
abbrev pub ◌<>◌ : String → String → String
◌<>◌ = String.◌++◌

abbrev letter : String → Char
letter String.[] = Prim.Native.Char.nul
letter (c ∷ s) = c

digit : ℕ → Char
digit zero = letter "0"
digit (suc zero) = letter "1"
digit (suc (suc zero)) = letter "2"
digit (suc (suc (suc zero))) = letter "3"
digit (suc (suc (suc (suc zero)))) = letter "4"
digit (suc (suc (suc (suc (suc zero))))) = letter "5"
digit (suc (suc (suc (suc (suc (suc zero)))))) = letter "6"
digit (suc (suc (suc (suc (suc (suc (suc zero))))))) = letter "7"
digit (suc (suc (suc (suc (suc (suc (suc (suc zero)))))))) = letter "8"
digit (suc (suc (suc (suc (suc (suc (suc (suc (suc zero))))))))) = letter "9"
digit (suc (suc (suc (suc (suc (suc (suc (suc (suc (suc d)))))))))) = letter "9"

unfoldable pub digit_value : Char → Option ℕ
digit_value c = if leb b'0' (code c) && leb (code c) b'9' then some (code c - 48) else none

digit_value-digit : (d : ℕ) → d < 10 → digit_value (digit d) ≡ some d
unfolding digit digit_value
digit_value-digit zero h = refl
digit_value-digit (suc zero) h = refl
digit_value-digit (suc (suc zero)) h = refl
digit_value-digit (suc (suc (suc zero))) h = refl
digit_value-digit (suc (suc (suc (suc zero)))) h = refl
digit_value-digit (suc (suc (suc (suc (suc zero))))) h = refl
digit_value-digit (suc (suc (suc (suc (suc (suc zero)))))) h = refl
digit_value-digit (suc (suc (suc (suc (suc (suc (suc zero))))))) h = refl
digit_value-digit (suc (suc (suc (suc (suc (suc (suc (suc zero)))))))) h = refl
digit_value-digit (suc (suc (suc (suc (suc (suc (suc (suc (suc zero))))))))) h = refl
digit_value-digit (suc (suc (suc (suc (suc (suc (suc (suc (suc (suc d)))))))))) h =
    absurd (omega arith)

-- The digits of `n` in front of `acc`; the fuel is above the number.
digits : ℕ → ℕ → String → String
digits zero n acc = acc
digits (suc f) n acc =
    let shorter : String = digit (n % 10) ∷ acc in
    let longer = digits f (n / 10) shorter in if n / 10 == 0 then shorter else longer

-- `str(n)`
unfoldable pub show_ℕ : ℕ → String
unfolding digits digit
show_ℕ n = digits (suc n) n ""

unfoldable pub show_ℤ : ℤ → String
unfolding show_ℕ
show_ℤ (pos n) = show_ℕ n
show_ℤ (negsuc n) = letter "-" ∷ show_ℕ (suc n)

abbrev is_space : Char → Bool
is_space c = code c == 32 || (leb 9 (code c) && leb (code c) 13)

all_space : String → Bool
all_space String.[] = true
all_space (c ∷ s) = is_space c && all_space s

-- The rest of a literal of `int`: a digit may follow an underscore, and only blanks follow the
-- last digit. `after` says that the character before was a digit.
read_from : Bool → ℕ → String → Option ℕ
read_from after acc String.[] = if after then some acc else none
read_from after acc (c ∷ s) = elim (digit_value c) [
  | some d ↦ read_from true (acc * 10 + d) s
  | none ↦
      if code c == b'_' && after
      then read_from false acc s
      else if after && all_space (c ∷ s)
      then some acc
      else none
]

-- `int(text)`; `none` is ValueError.
read_signed : String → Option ℤ
read_signed String.[] = none
read_signed (c ∷ s) =
    if code c == b'-'
    then Option.map (λ n. neg (pos n)) (read_from false 0 s)
    else if code c == b'+'
    then Option.map pos (read_from false 0 s)
    else Option.map pos (read_from false 0 (c ∷ s))

unfoldable pub read_ℤ : String → Option ℤ
unfolding read_signed read_from digit_value all_space neg
read_ℤ String.[] = none
read_ℤ (c ∷ s) = if is_space c then read_ℤ s else read_signed (c ∷ s)

-- `str` writes what `int` reads, whatever text follows.
read_from-digits :
    (f n : ℕ) (rest : String) → n < f → read_from false 0 (digits f n rest) ≡ read_from true n rest
unfolding read_from digits
read_from-digits zero n rest h = elim h [ ]
read_from-digits (suc f) n rest h = elim (Bool-cases (n / 10 == 0)) [
  | inl e ↦
      let small : n % 10 ≡ n = ground arith in
      rw (e, small, digit_value-digit n (ground arith), read_from)
        (ap (λ (t : ℕ). read_from true t rest) (omega arith))
  | inr e ↦
      let ih = read_from-digits f (n / 10) (digit (n % 10) ∷ rest) (ground arith) in
      rw (e, ih, digit_value-digit (n % 10) (omega arith), read_from)
        (ap (λ (t : ℕ). read_from true t rest) (omega (arith, div-add-mod n 10)))
]

abbrev Numeric : String → Type 0
Numeric s = (c : Char) × (rest : String) × (s ≡ c ∷ rest) × (48 ≤ code c) × (code c ≤ 57)

digit_range : (d : ℕ) → (48 ≤ code (digit d)) × (code (digit d) ≤ 57)
unfolding digit
digit_range zero = (omega arith, omega arith)
digit_range (suc zero) = (omega arith, omega arith)
digit_range (suc (suc zero)) = (omega arith, omega arith)
digit_range (suc (suc (suc zero))) = (omega arith, omega arith)
digit_range (suc (suc (suc (suc zero)))) = (omega arith, omega arith)
digit_range (suc (suc (suc (suc (suc zero))))) = (omega arith, omega arith)
digit_range (suc (suc (suc (suc (suc (suc zero)))))) = (omega arith, omega arith)
digit_range (suc (suc (suc (suc (suc (suc (suc zero))))))) = (omega arith, omega arith)
digit_range (suc (suc (suc (suc (suc (suc (suc (suc zero)))))))) = (omega arith, omega arith)
digit_range (suc (suc (suc (suc (suc (suc (suc (suc (suc zero))))))))) = (omega arith, omega arith)
digit_range (suc (suc (suc (suc (suc (suc (suc (suc (suc (suc d)))))))))) =
    (omega arith, omega arith)

digits-Numeric : (f n : ℕ) (rest : String) → n < f → Numeric (digits f n rest)
unfolding digits
digits-Numeric zero n rest h = elim h [ ]
digits-Numeric (suc f) n rest h = elim (Bool-cases (n / 10 == 0)) [
  | inl e ↦ let r = digit_range (n % 10) in rw e (digit (n % 10), rest, refl, r.0, r.1)
  | inr e ↦ rw e (digits-Numeric f (n / 10) (digit (n % 10) ∷ rest) (ground arith))
]

read_ℤ-Numeric : (s : String) → Numeric s → read_ℤ s ≡ Option.map pos (read_from false 0 s)
unfolding read_ℤ
read_ℤ-Numeric s (c, rest, e, low, high) = rw e ((ground arith))

-- `int(str(a)) == a`
pub read_ℤ-show_ℤ : (a : ℤ) → read_ℤ (show_ℤ a) ≡ some a
unfolding show_ℤ
read_ℤ-show_ℤ (pos n) =
    rw
      (
        read_ℤ-Numeric (digits (suc n) n "") (digits-Numeric (suc n) n "" (omega arith)),
        read_from-digits (suc n) n "" (omega arith),
      )
      (unfold read_from in refl)
read_ℤ-show_ℤ (negsuc n) =
    unfold read_ℤ in
    rw (read_from-digits (suc (suc n)) (suc n) "" (omega arith)) (unfold read_from neg in refl)

-- The codes of a text in capitals or in small letters, for comparison without regard to case.
abbrev pub upper : String → List ℕ
upper String.[] = []
upper (c ∷ s) = (if leb b'a' (code c) && leb (code c) b'z' then code c - 32 else code c) ∷ upper s

abbrev pub lower : String → List ℕ
lower String.[] = []
lower (c ∷ s) = (if leb b'A' (code c) && leb (code c) b'Z' then code c + 32 else code c) ∷ lower s

abbrev pub codes_eq : List ℕ → List ℕ → Bool
codes_eq [] [] = true
codes_eq (x ∷ xs) (y ∷ ys) = x == y && codes_eq xs ys
codes_eq _ _ = false

hex_value : Char → Option ℕ
hex_value c =
    if leb b'0' (code c) && leb (code c) b'9'
    then some (code c - 48)
    else if leb b'a' (code c) && leb (code c) b'f'
    then some (code c - 87)
    else if leb b'A' (code c) && leb (code c) b'F'
    then some (code c - 55)
    else none

hex_digit : ℕ → Char
hex_digit n =
    if n == 10
    then letter "a"
    else if n == 11
    then letter "b"
    else if n == 12
    then letter "c"
    else if n == 13
    then letter "d"
    else if n == 14
    then letter "e"
    else if n == 15
    then letter "f"
    else digit n

hex_digits : String → Option (List ℕ)
hex_digits String.[] = some []
hex_digits (c ∷ s) =
    let rest = hex_digits s in
    elim (hex_value c) [ none ↦ none | some d ↦ Option.map (λ ds. d ∷ ds) rest ]

abbrev starts_with : String → String → Bool
starts_with String.[] s = true
starts_with (c ∷ w) String.[] = false
starts_with (c ∷ w) (d ∷ s) = code c == code d && starts_with w s

abbrev pub text_length : String → ℕ
text_length String.[] = 0
text_length (c ∷ s) = suc (text_length s)

-- `text.replace(word, '')`, with `left` characters of the word still to be left out.
remove_word : String → ℕ → String → String
remove_word word left String.[] = ""
remove_word word (suc left) (c ∷ s) = remove_word word left s
remove_word word zero (c ∷ s) =
    let hit = starts_with word (c ∷ s) in
    let rest = remove_word word (if hit then text_length word - 1 else 0) s in
    if hit then rest else c ∷ rest

abbrev is_brace : Char → Bool
is_brace c = code c == b'{' || code c == b'}'

strip_left : String → String
strip_left String.[] = ""
strip_left (c ∷ s) = let rest = strip_left s in if is_brace c then rest else c ∷ s

strip_right : String → String
strip_right String.[] = ""
strip_right (c ∷ s) =
    let rest : String = strip_right s in
    if is_brace c && text_length rest == 0 then "" else c ∷ rest

-- The text whose 32 characters `uuid.UUID(text)` reads: without `urn:` and `uuid:`, without braces
-- around it and without hyphens.
unfoldable pub uuid_text : String → String
unfolding remove_word strip_left strip_right
uuid_text s =
    remove_word "-" 0 (strip_right (strip_left (remove_word "uuid:" 0 (remove_word "urn:" 0 s))))

-- 8-4-4-4-12 digits; `k` is the number written.
hyphenate : ℕ → List ℕ → String
hyphenate k [] = ""
hyphenate k (d ∷ ds) =
    let rest : String = hex_digit d ∷ hyphenate (suc k) ds in
    if k == 8 || k == 12 || k == 16 || k == 20 then letter "-" ∷ rest else rest

-- `str(uuid.UUID(text))`; `none` is ValueError. Of the forms that `int(text, 16)` reads, those with
-- digits alone are read: 32 characters with a sign, spaces, underscores or `0x`, which nothing here
-- writes, are refused.
unfoldable pub parse_uuid : String → Option String
unfolding hex_value hex_digit hex_digits hyphenate digit uuid_text
parse_uuid s =
    if text_length (uuid_text s) == 32
    then elim (hex_digits (uuid_text s)) [ none ↦ none | some ds ↦ some (hyphenate 0 ds) ]
    else none

-- `text[:n]`
pub take_chars : ℕ → String → String
take_chars zero s = ""
take_chars (suc n) String.[] = ""
take_chars (suc n) (c ∷ s) = c ∷ take_chars n s

-- `text[n:]`
pub drop_chars : ℕ → String → String
drop_chars zero s = s
drop_chars (suc n) String.[] = ""
drop_chars (suc n) (c ∷ s) = drop_chars n s

pub parse_uuid-none : (s : String) → (text_length (uuid_text s) == 32) ≡ false → parse_uuid s ≡ none
unfolding parse_uuid
parse_uuid-none s h = rw h refl
