-- ===== src/Base/Sort.antt =====
-- `sort.Ints` as insertion sort: the ascending arrangement of the same elements.
use Prim.Native.Nat.{ℕ, suc, ◌<◌}
use mathlib.Core.Path.{◌≡◌, refl, ap}
use mathlib.Core.Bool.{false, ◌||◌}
use mathlib.Core.List.{List, [], ◌∷◌}
use native.Mathlib.Omega.{arith}
use keypool_service.Base.Tests.{leb, ◌==◌, if◌then◌else◌}
use keypool_service.Base.Lists.{All, member, length}

unfoldable pub insert_int : ℕ → List ℕ → List ℕ
insert_int a [] = a ∷ []
insert_int a (x ∷ xs) = if leb a x then a ∷ x ∷ xs else x ∷ insert_int a xs

unfoldable pub sort_ints : List ℕ → List ℕ
unfolding insert_int
sort_ints [] = []
sort_ints (x ∷ xs) = insert_int x (sort_ints xs)

pub member-insert_int :
    (b a : ℕ) (xs : List ℕ) → member b (insert_int a xs) ≡ ((a == b) || member b xs)
unfolding insert_int
member-insert_int b a [] = refl
member-insert_int b a (x ∷ xs) = ground (arith, member-insert_int b a xs)

pub member-sort_ints : (a : ℕ) (xs : List ℕ) → member a (sort_ints xs) ≡ member a xs
unfolding sort_ints
member-sort_ints a [] = refl
member-sort_ints a (x ∷ xs) =
    ground (arith, member-insert_int a x (sort_ints xs), member-sort_ints a xs)

-- Strictly ascending, so without repetition.
abbrev pub IsStrict : List ℕ → Type 0
IsStrict [] = Unit
IsStrict (x ∷ xs) = All (λ y. x < y) xs × IsStrict xs

-- No element twice.
abbrev pub Distinct : List ℕ → Type 0
Distinct [] = Unit
Distinct (x ∷ xs) = (member x xs ≡ false) × Distinct xs

insert_int-above :
    (m a : ℕ) (xs : List ℕ) → m < a → All (λ y. m < y) xs → All (λ y. m < y) (insert_int a xs)
unfolding insert_int
insert_int-above m a [] h k = (h, tt)
insert_int-above m a (x ∷ xs) h k = ground (arith, insert_int-above m a xs h k.1)

All-above : (a x : ℕ) (xs : List ℕ) → a < x → All (λ y. x < y) xs → All (λ y. a < y) xs
All-above a x [] h k = tt
All-above a x (y ∷ ys) h k = (omega arith, All-above a x ys h k.1)

insert_int-IsStrict :
    (a : ℕ) (xs : List ℕ) → member a xs ≡ false → IsStrict xs → IsStrict (insert_int a xs)
unfolding insert_int
insert_int-IsStrict a [] h s = (tt, tt)
insert_int-IsStrict a (x ∷ xs) h s =
    ground (arith, insert_int-IsStrict a xs, insert_int-above x a xs, All-above a x xs, s.0)

pub sort_ints-IsStrict : (xs : List ℕ) → Distinct xs → IsStrict (sort_ints xs)
unfolding sort_ints
sort_ints-IsStrict [] d = tt
sort_ints-IsStrict (x ∷ xs) d =
    insert_int-IsStrict x (sort_ints xs) (ground (arith, member-sort_ints x xs))
      (sort_ints-IsStrict xs d.1)

insert_int-length : (a : ℕ) (xs : List ℕ) → length (insert_int a xs) ≡ suc (length xs)
unfolding insert_int
insert_int-length a [] = refl
insert_int-length a (x ∷ xs) = ground (arith, insert_int-length a xs)

pub length-sort_ints : (xs : List ℕ) → length (sort_ints xs) ≡ length xs
unfolding sort_ints
length-sort_ints [] = refl
length-sort_ints (x ∷ xs) = ground (arith, insert_int-length x (sort_ints xs), length-sort_ints xs)

pub sort_ints-nil : (xs : List ℕ) → sort_ints xs ≡ [] → xs ≡ []
sort_ints-nil [] h = refl
sort_ints-nil (x ∷ xs) h = absurd (omega (arith, ap length h, length-sort_ints (x ∷ xs)))
