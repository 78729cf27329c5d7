-- ===== src/Startup.antt =====
-- cmd/keypool/main.go: its own itoa. The buffer has twenty bytes; `none` is the panic of an index below zero.
pub mod Boot
use keypool_service.Base.{
  ℕ, zero, suc, ◌+◌, ◌*◌, ◌/◌, ◌%◌, ◌^◌, ◌≤◌, ◌<◌, ◌≡◌, refl, ap, ◌∙◌, Bool, true, false, Option,
  none, some, [], ◌∷◌, arith, ltb, ◌==◌, if◌then◌else◌, ltb→lt, lt→ltb, some_inj, length,
}
use keypool_service.Base.Int.{ℤ, pos, negsuc, pos_part, neg_part, wrap64, wrap64-pos}
use keypool_service.Base.Text.{Str, codes, itoa}
use keypool_service.Base.Text.{digits, lowest_int}

-- The loop, with the number of free bytes of the buffer.
unfoldable pub fill : ℕ → ℕ → Str → Option Str
fill zero zero out = some out
fill zero (suc n) out = none
fill (suc i) n out =
    let rest = fill i (n / 10) ((b'0' + n % 10) ∷ out) in if n == 0 then some out else rest

-- The sign in front, in the last free byte.
abbrev pub signed : Option Str → Option Str
signed none = none
signed (some out) = if ltb (length out) 20 then some (b'-' ∷ out) else none

-- A negative number of 64 bits is negated; the loop over what is still negative does not run.
unfoldable pub itoa_main : ℤ → Option Str
unfolding fill wrap64
itoa_main (pos zero) = some (codes "0")
itoa_main (pos (suc n)) = fill 20 (suc n) []
itoa_main (negsuc n) = signed (fill 20 (pos_part (wrap64 (pos (suc n)))) [])

runs :
    (itoa_main (pos 1024) ≡ some (codes "1024"))
    × (itoa_main (negsuc 6) ≡ some (codes "-7"))
    × (itoa_main lowest_int ≡ some (codes "-"))
unfolding itoa_main
runs = (refl, refl, refl)

fill_zero : (i : ℕ) (out : Str) → fill i 0 out ≡ some out
unfolding fill
fill_zero zero out = refl
fill_zero (suc i) out = refl

pow_suc : (i : ℕ) → 10 ^ suc i ≡ 10 * 10 ^ i
pow_suc i = omega arith

-- The loop writes the digits of a positive number that fits.
fill-digits :
    (i f n : ℕ) (out : Str) → 0 < n → n < 10 ^ i → n ≤ f → fill i n out ≡ some (digits f n out)
unfolding fill digits
fill-digits zero f n out p h l = absurd (omega arith)
fill-digits (suc i) zero n out p h l = absurd (omega arith)
fill-digits (suc i) (suc f) n out p h l =
    go (n == 0) (ltb n 10) refl refl (fill-digits i f (n / 10) ((b'0' + n % 10) ∷ out))
  where
    go :
        (z b : Bool)
        → (n == 0) ≡ z
        → ltb n 10 ≡ b
        → (0 < n / 10
            → n / 10 < 10 ^ i
            → n / 10 ≤ f
            → fill i (n / 10) ((b'0' + n % 10) ∷ out)
              ≡ some (digits f (n / 10) ((b'0' + n % 10) ∷ out)))
        → (if z then some out else fill i (n / 10) ((b'0' + n % 10) ∷ out))
          ≡ some (elim b [
            | true ↦ (b'0' + n) ∷ out
            | false ↦ digits f (n / 10) ((b'0' + n % 10) ∷ out)
          ])
    go true b e k rest = absurd (ground (arith, e))
    go false true e k rest =
        let small : n < 10 = ltb→lt n 10 k in
        ap (λ m. fill i m ((b'0' + n % 10) ∷ out)) (omega arith)
        ∙ fill_zero i ((b'0' + n % 10) ∷ out)
        ∙ ap (λ m. some ((b'0' + m) ∷ out)) (omega arith)
    go false false e k rest =
        let large : 10 ≤ n = ground (arith, k) in
        rest (omega arith) (omega (arith, pow_suc i)) (omega arith)

fill-length : (i n : ℕ) (out r : Str) → fill i n out ≡ some r → length r ≤ i + length out
unfolding fill
fill-length zero zero out r h = let same : out ≡ r = some_inj h in omega (arith, ap length same)
fill-length zero (suc n) out r h = absurd (cc)
fill-length (suc i) n out r h = go (n == 0) h (fill-length i (n / 10) ((b'0' + n % 10) ∷ out) r)
  where
    go :
        (z : Bool)
        → (if z then some out else fill i (n / 10) ((b'0' + n % 10) ∷ out)) ≡ some r
        → (fill i (n / 10) ((b'0' + n % 10) ∷ out) ≡ some r → length r ≤ i + suc (length out))
        → length r ≤ suc i + length out
    go true q rest = let same : out ≡ r = some_inj q in omega (arith, ap length same)
    go false q rest = omega (arith, rest q)

-- The number of digits of a number that fits.
digits-length : (n : ℕ) → 0 < n → n < 10 ^ 19 → length (digits n n []) ≤ 19
digits-length n p h = fill-length 19 n [] (digits n n []) (fill-digits 19 n n [] p h (omega arith))

signed_short : (out : Str) → length out ≤ 19 → signed (some out) ≡ some (b'-' ∷ out)
signed_short out h = rw (lt→ltb (length out) 20 (omega arith)) refl

-- The program's own itoa ends within its buffer and writes what strconv.Itoa does, for every int but
-- the lowest one.
pub itoa_main-itoa :
    (z : ℤ) → pos_part z < 2 ^ 63 → neg_part z < 2 ^ 63 → itoa_main z ≡ some (itoa z)
unfolding itoa_main itoa digits
itoa_main-itoa (pos zero) a b = refl
itoa_main-itoa (pos (suc n)) a b =
    fill-digits 20 (suc n) (suc n) [] (omega arith) (omega arith) (omega arith)
itoa_main-itoa (negsuc n) a b =
    ap (λ m. signed (fill 20 (pos_part m) [])) (wrap64-pos (suc n) b)
    ∙ ap signed (fill-digits 20 (suc n) (suc n) [] (omega arith) (omega arith) (omega arith))
    ∙ signed_short (digits (suc n) (suc n) []) (digits-length (suc n) (omega arith) (omega arith))
