-- ===== src/Base/Digits.antt =====
-- strconv.Atoi behind strconv.Itoa.
use Prim.Native.Nat.{◌^◌, ◌/◌, ◌%◌, zero, suc, ℕ, ◌+◌, ◌-◌, ◌≤◌, ◌<◌}
use mathlib.Core.Path.{◌≡◌, refl, ap, ◌∙◌}
use mathlib.Core.Bool.{Bool, true, false}
use mathlib.Core.List.{[], ◌∷◌}
use mathlib.Core.Option.{Option, none, some}
use native.Mathlib.Omega.{arith}
use keypool_service.Base.Tests.{ltb, leb, ◌==◌, if◌then◌else◌}
use keypool_service.Base.Int.{ℤ, pos, negsuc, pos_part, sub_ℕ}
use keypool_service.Base.Text.{Str, is_digit, digits_value, as_int, read_digits, atoi, digits, itoa}

-- Reading on behind the digits of a number.
pub digits_value-digits :
    (f n : ℕ) (out : Str) → n ≤ f → digits_value 0 (digits f n out) ≡ digits_value n out
unfolding digits digits_value is_digit
digits_value-digits zero n out h = ground arith
digits_value-digits (suc f) n out h =
    go (ltb n 10) refl (digits_value-digits f (n / 10) ((b'0' + n % 10) ∷ out))
  where
    go :
        (b : Bool)
        → ltb n 10 ≡ b
        → (n / 10 ≤ f
            → digits_value 0 (digits f (n / 10) ((b'0' + n % 10) ∷ out))
              ≡ digits_value (n / 10) ((b'0' + n % 10) ∷ out))
        → digits_value 0
            (elim b [ true ↦ (b'0' + n) ∷ out | false ↦ digits f (n / 10) ((b'0' + n % 10) ∷ out) ])
          ≡ digits_value n out
    go true e rest = ground arith
    go false e rest = rest (ground arith) ∙ ground arith

-- A text that starts with a digit.
pub record Starts (s : Str) : Type 0 where
  pub first : ℕ
  pub rest : Str
  pub cut : s ≡ first ∷ rest
  pub low : b'0' ≤ first

digits-Starts : (f n : ℕ) (out : Str) → Starts (digits f n out)
unfolding digits
digits-Starts zero n out = record { first = b'0' + n; rest = out; cut = refl; low = omega arith }
digits-Starts (suc f) n out = go (ltb n 10) (digits-Starts f (n / 10) ((b'0' + n % 10) ∷ out))
  where
    go :
        (b : Bool)
        → Starts (digits f (n / 10) ((b'0' + n % 10) ∷ out))
        → Starts
            (elim b [ true ↦ (b'0' + n) ∷ out | false ↦ digits f (n / 10) ((b'0' + n % 10) ∷ out) ])
    go true rest = record { first = b'0' + n; rest = out; cut = refl; low = omega arith }
    go false rest = rest

-- A text without a sign is read as its digits.
atoi-Starts : (s : Str) → Starts s → atoi s ≡ read_digits false s
unfolding atoi
atoi-Starts s t = go t.first t.cut t.low
  where
    go : (c : ℕ) → s ≡ c ∷ t.rest → b'0' ≤ c → atoi s ≡ read_digits false s
    go c e l = rw (e) (ground arith)

-- The number that a text printed by Itoa spells, without a bound.
unfoldable pub spelled : Str → Option ℤ
unfolding digits_value
spelled [] = none
spelled (c ∷ s) = elim (c == b'-') [
  | true ↦ elim (digits_value 0 s) [ some n ↦ some (sub_ℕ 0 n) | none ↦ none ]
  | false ↦ elim (digits_value 0 (c ∷ s)) [ some n ↦ some (pos n) | none ↦ none ]
]

spelled-digits : (s : Str) (n : ℕ) → Starts s → digits_value 0 s ≡ some n → spelled s ≡ some (pos n)
unfolding spelled
spelled-digits [] n t h = absurd (cc (t.cut))
spelled-digits (c ∷ s) n t h = go (c == b'-') refl
  where
    first_of : Str → ℕ
    first_of [] = 0
    first_of (d ∷ x) = d

    go : (b : Bool) → (c == b'-') ≡ b → spelled (c ∷ s) ≡ some (pos n)
    go true e =
        let same : c ≡ t.first = ap first_of t.cut in absurd (ground (arith, e, same, t.low))
    go false e = rw (e, h, spelled) refl

spelled_minus :
    (s : Str) (n : ℕ) → digits_value 0 s ≡ some (suc n) → spelled (b'-' ∷ s) ≡ some (negsuc n)
unfolding spelled
spelled_minus s n h = rw (h, spelled) (ground arith)

-- What Itoa prints spells the number, for every integer.
pub spelled-itoa : (z : ℤ) → spelled (itoa z) ≡ some z
unfolding itoa digits_value
spelled-itoa (pos n) =
    spelled-digits (digits n n []) n (digits-Starts n n [])
      (digits_value-digits n n [] (omega arith))
spelled-itoa (negsuc n) =
    spelled_minus (digits (suc n) (suc n) []) n
      (digits_value-digits (suc n) (suc n) [] (omega arith))

read_digits-some :
    (neg : Bool) (s : Str) (n : ℕ)
    → Starts s
    → digits_value 0 s ≡ some n
    → read_digits neg s ≡ as_int neg n
unfolding read_digits
read_digits-some neg [] n t h = absurd (cc (t.cut))
read_digits-some neg (c ∷ s) n t h = rw (h, read_digits) refl

-- Atoi reads what Itoa prints, for every number that is an int and not negative.
pub atoi-itoa : (n : ℕ) → n < 2 ^ 63 → atoi (itoa (pos n)) ≡ some (pos n)
unfolding itoa digits_value
atoi-itoa n h =
    atoi-Starts (digits n n []) (digits-Starts n n [])
    ∙ read_digits-some false (digits n n []) n (digits-Starts n n [])
        (digits_value-digits n n [] (omega arith))
    ∙ ground arith

pos_inj : {a b : ℕ} → pos a ≡ pos b → a ≡ b
pos_inj h = ap pos_part h

some_inj : {a b : ℤ} → some a ≡ some b → a ≡ b
some_inj {a} h = ap (or_that a) h
  where
    or_that : ℤ → Option ℤ → ℤ
    or_that d none = d
    or_that d (some x) = x

not_above : (k n : ℕ) → sub_ℕ 0 k ≡ pos n → n < 2 ^ 63
not_above k n h = go (leb k 0) h
  where
    go : (b : Bool) → (if b then pos (0 - k) else negsuc (k - 0 - 1)) ≡ pos n → n < 2 ^ 63
    go true q = let same : 0 - k ≡ n = pos_inj q in omega (arith, same)
    go false q = absurd (cc)

as_int-bound : (neg : Bool) (k n : ℕ) → as_int neg k ≡ some (pos n) → n < 2 ^ 63
as_int-bound true k n h = go (leb k (2 ^ 63)) h
  where
    go : (b : Bool) → (if b then some (sub_ℕ 0 k) else none) ≡ some (pos n) → n < 2 ^ 63
    go true q = not_above k n (some_inj q)
    go false q = absurd (cc)
as_int-bound false k n h = go (ltb k (2 ^ 63)) refl h
  where
    go :
        (b : Bool)
        → ltb k (2 ^ 63) ≡ b
        → (if b then some (pos k) else none) ≡ some (pos n)
        → n < 2 ^ 63
    go true e q = let same : k ≡ n = pos_inj (some_inj q) in ground (arith, same, e)
    go false e q = absurd (cc)

read_digits-bound : (neg : Bool) (s : Str) (n : ℕ) → read_digits neg s ≡ some (pos n) → n < 2 ^ 63
unfolding read_digits
read_digits-bound neg [] n h = absurd (cc)
read_digits-bound neg (c ∷ s) n h = go (digits_value 0 (c ∷ s)) h
  where
    go :
        (o : Option ℕ)
        → ◌≡◌ {A = Option ℤ} (elim o [ some k ↦ as_int neg k | none ↦ none ]) (some (pos n))
        → n < 2 ^ 63
    go (some k) q = as_int-bound neg k n q
    go none q = absurd (cc)

-- Atoi returns an int: what it reads that is not negative lies below 2 ^ 63.
pub atoi-bound : (s : Str) (n : ℕ) → atoi s ≡ some (pos n) → n < 2 ^ 63
unfolding atoi
atoi-bound [] n h = absurd (cc)
atoi-bound (c ∷ s) n h = go (c == b'-') (c == b'+') h
  where
    go :
        (a b : Bool)
        → (if a
            then read_digits true s
            else if b
            then read_digits false s
            else read_digits false (c ∷ s))
          ≡ some (pos n)
        → n < 2 ^ 63
    go true b q = read_digits-bound true s n q
    go false true q = read_digits-bound false s n q
    go false false q = read_digits-bound false (c ∷ s) n q
