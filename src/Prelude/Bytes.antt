-- ===== src/Prelude/Bytes.antt =====
-- Byte strings as lists of numbers, compared byte by byte.
use linvesther.Prelude.Tests.{◌==◌}
use linvesther.Prelude.Lists.{length}
use Prim.Native.Nat.{ℕ, zero, suc, ◌+◌, ◌*◌, ◌/◌, ◌%◌, ◌^◌, ◌<◌}
use Prim.Native.Char.{code}
use Prim.Native.String.{String}
use mathlib.Core.Path.{◌≡◌, refl, ap}
use native.Mathlib.Nat.{
  mod-eq-sub-div-mul, div-div-eq-div-mul, div-add-mod, div-add-mod', pow-suc, mod-eq_of_lt,
}
use mathlib.Core.Logic.{◌↔◌}
use mathlib.Core.Bool.{Bool, true, false, ◌&&◌}
use mathlib.Core.List.{List, [], ◌∷◌, ◌++◌}
use native.Mathlib.Decide.{ℕ_discrete}
use native.Mathlib.Omega.{arith}

abbrev pub Bytes : Type 0
Bytes = List ℕ

unfoldable pub bytes_eq : Bytes → Bytes → Bool
bytes_eq [] [] = true
bytes_eq [] (b ∷ m) = false
bytes_eq (a ∷ l) [] = false
bytes_eq (a ∷ l) (b ∷ m) = a == b && bytes_eq l m

pub bytes_eq→eq : (a b : Bytes) → bytes_eq a b ≡ true → a ≡ b
unfolding bytes_eq
bytes_eq→eq [] [] h = refl
bytes_eq→eq [] (y ∷ ys) h = cc
bytes_eq→eq (x ∷ xs) [] h = cc
bytes_eq→eq (x ∷ xs) (y ∷ ys) h = ground (arith, bytes_eq→eq xs ys)

pub bytes_eq_refl : (a : Bytes) → bytes_eq a a ≡ true
unfolding bytes_eq
bytes_eq_refl [] = refl
bytes_eq_refl (x ∷ xs) = ground (arith, bytes_eq_refl xs)

pub bytes_eq_iff : (a b : Bytes) → (bytes_eq a b ≡ true) ↔ (a ≡ b)
bytes_eq_iff a b = (bytes_eq→eq a b, λ e. rw e (bytes_eq_refl b))

-- A Rust string is its UTF-8 bytes; this gives those of an ASCII literal.
abbrev pub codes : String → Bytes
codes String.[] = []
codes (String.◌∷◌ c s) = code c ∷ codes s

-- `to_be_bytes` of an integer type of the given number of bytes.
unfoldable pub to_be_bytes : ℕ → ℕ → Bytes
to_be_bytes zero n = []
to_be_bytes (suc width) n = n / 256 ^ width % 256 ∷ to_be_bytes width n

pub length-to_be_bytes : (width n : ℕ) → length (to_be_bytes width n) ≡ width
unfolding to_be_bytes
length-to_be_bytes zero n = refl
length-to_be_bytes (suc width) n = omega (arith, length-to_be_bytes width n)

split_mod : (n p : ℕ) → n % (p * 256) ≡ n / p % 256 * p + n % p
split_mod n p =
    rw (mod-eq-sub-div-mul n (p * 256), ← div-div-eq-div-mul n p 256)
      (omega (arith, ap (λ (t : ℕ). t * p) (div-add-mod (n / p) 256), div-add-mod' n p))

to_be_bytes_mod :
    (width m n : ℕ) → to_be_bytes width m ≡ to_be_bytes width n → m % 256 ^ width ≡ n % 256 ^ width
unfolding to_be_bytes
to_be_bytes_mod zero m n e = omega arith
to_be_bytes_mod (suc width) m n e =
    let high : m / 256 ^ width % 256 ≡ n / 256 ^ width % 256 = cc in
    let low : to_be_bytes width m ≡ to_be_bytes width n = cc in
    rw (pow-suc 256 width, split_mod m (256 ^ width), split_mod n (256 ^ width), high)
      (ap (λ (t : ℕ). n / 256 ^ width % 256 * 256 ^ width + t) (to_be_bytes_mod width m n low))

pub to_be_bytes-injective :
    (width m n : ℕ)
    → m < 256 ^ width
    → n < 256 ^ width
    → to_be_bytes width m ≡ to_be_bytes width n
    → m ≡ n
to_be_bytes-injective width m n hm hn e =
    rw (mod-eq_of_lt hm, mod-eq_of_lt hn) at (to_be_bytes_mod width m n e)

-- (The library's lemma of this name measures by the unary numbers.)
pub append_inj : (s t u v : Bytes) → s ++ u ≡ t ++ v → length s ≡ length t → (s ≡ t) × (u ≡ v)
append_inj [] [] u v e h = (refl, e)
append_inj [] (y ∷ t) u v e h = absurd (omega arith)
append_inj (x ∷ s) [] u v e h = absurd (omega arith)
append_inj (x ∷ s) (y ∷ t) u v e h =
    let tails : s ++ u ≡ t ++ v = cc in
    let (same, rest) = append_inj s t u v tails (omega arith) in (cc, rest)

pub dec_bytes : Discrete Bytes
dec_bytes = hlevel ℕ_discrete
