-- ===== src/Prelude/Members.antt =====
-- Lists of texts as sets: membership as a Boolean, and lists without repetition.
use Prim.Native.Nat.{suc, ◌≤◌}
use Prim.Native.String.{String}
use mathlib.Core.Path.{◌≡◌, refl}
use mathlib.Core.Bool.{Bool, true, not, ◌&&◌, ◌||◌}
use mathlib.Core.List.{List, [], ◌∷◌, ◌++◌}
use native.Mathlib.Omega.{arith}
use text.Mathlib.Text.{◌==◌ as str_eq}
use text.Mathlib.TextEquality.{eq_iff}
use hymenium.Prelude.Lists.{any, length, filter}

-- `contains` of a set or a list of texts.
abbrev pub member : String → List String → Bool
member id = any (λ s. str_eq s id)

-- The list has no text twice.
abbrev pub is_distinct : List String → Bool
is_distinct [] = true
is_distinct (x ∷ xs) = not (member x xs) && is_distinct xs

pub str_eq-same : (s : String) → str_eq s s ≡ true
str_eq-same s = ground (arith, eq_iff s s)

pub member-append :
    (a : String) (xs ys : List String) → member a (xs ++ ys) ≡ (member a xs || member a ys)
member-append a [] ys = refl
member-append a (x ∷ xs) ys = ground (arith, member-append a xs ys)

abbrev pub without : String → List String → List String
without a = filter (λ s. not (str_eq s a))

pub member-without :
    (a b : String) (xs : List String) → member b (without a xs) ≡ (member b xs && not (str_eq b a))
member-without a b [] = refl
member-without a b (x ∷ xs) =
    ground (arith, member-without a b xs, eq_iff x a, eq_iff x b, eq_iff b a)

pub is_distinct-snoc :
    (xs : List String) (a : String)
    → is_distinct (xs ++ a ∷ []) ≡ (is_distinct xs && not (member a xs))
is_distinct-snoc [] a = refl
is_distinct-snoc (x ∷ xs) a =
    ground (arith, is_distinct-snoc xs a, member-append x xs (a ∷ []), eq_iff x a, eq_iff a x)

length-without_le : (a : String) (xs : List String) → length (without a xs) ≤ length xs
length-without_le a [] = omega arith
length-without_le a (x ∷ xs) = ground (arith, length-without_le a xs)

length-without_lt :
    (a : String) (xs : List String) → member a xs ≡ true → suc (length (without a xs)) ≤ length xs
length-without_lt a [] m = ground arith
length-without_lt a (x ∷ xs) m = ground (arith, length-without_le a xs, length-without_lt a xs)

-- A distinct list of members of another list is no longer than it.
pub is_distinct-length :
    (xs ys : List String)
    → is_distinct xs ≡ true
    → ((a : String) → member a xs ≡ true → member a ys ≡ true)
    → length xs ≤ length ys
is_distinct-length [] ys d sub = omega arith
is_distinct-length (x ∷ xs) ys d sub =
    let here : member x ys ≡ true = sub x (ground (arith, str_eq-same x)) in
    let rest : length xs ≤ length (without x ys) =
      is_distinct-length xs (without x ys) (ground arith)
        λ a m. ground (arith, sub a, member-without x a ys, eq_iff a x) in
    omega (arith, rest, length-without_lt x ys here)
