-- ===== src/Base/Text.antt =====
-- Python's `str` as the native text: order by code points, joining, splitting at `/`, and the
-- character classes of the patterns that the program matches whole.
use Prim.Native.Nat.{ℕ, suc}
use Prim.Native.Char.{code}
use Prim.Native.String.{String}
use mathlib.Core.Path.{◌≡◌, refl, ap}
use mathlib.Core.Logic.{◌⊎◌, inl, inr}
use mathlib.Core.Bool.{Bool, true, false, ◌&&◌, ◌||◌}
use mathlib.Core.Option.{Option, none, some}
use native.Mathlib.Omega.{arith}
use orichum.Base.Equality.{◌==◌, nat_eq, string_eq, if◌then◌else◌, Option-cases}
use orichum.Base.Numbers.{ltb, leb}

-- `a + b`
infixr 65 ◌<>◌
unfoldable pub ◌<>◌ : String → String → String
◌<>◌ String.[] t = t
◌<>◌ (String.◌∷◌ c s) t = String.◌∷◌ c (s <> t)

-- `a <= b`
unfoldable pub str_leb : String → String → Bool
str_leb String.[] t = true
str_leb (String.◌∷◌ c s) String.[] = false
str_leb (String.◌∷◌ c s) (String.◌∷◌ d t) =
    if ltb (code c) (code d) then true else if ltb (code d) (code c) then false else str_leb s t

pub str_leb-total : (s t : String) → (str_leb s t ≡ true) ⊎ (str_leb t s ≡ true)
unfolding str_leb
str_leb-total String.[] t = inl refl
str_leb-total (String.◌∷◌ c s) String.[] = inr refl
str_leb-total (String.◌∷◌ c s) (String.◌∷◌ d t) = ground (arith, str_leb-total s t)

pub str_leb_trans : (s t u : String) → str_leb s t ≡ true → str_leb t u ≡ true → str_leb s u ≡ true
unfolding str_leb
str_leb_trans String.[] t u p q = refl
str_leb_trans (String.◌∷◌ c s) String.[] u p q = cc
str_leb_trans (String.◌∷◌ c s) (String.◌∷◌ d t) String.[] p q = cc
str_leb_trans (String.◌∷◌ c s) (String.◌∷◌ d t) (String.◌∷◌ e u) p q =
    ground (arith, str_leb_trans s t u)

-- `len(s)`
unfoldable pub size : String → ℕ
size String.[] = 0
size (String.◌∷◌ c s) = suc (size s)

unfoldable pub every : (ℕ → Bool) → String → Bool
every p String.[] = true
every p (String.◌∷◌ c s) = p (code c) && every p s

-- `s` without its prefix `p`, where it has it.
unfoldable pub strip_prefix : String → String → Option String
strip_prefix String.[] s = some s
strip_prefix (String.◌∷◌ c p) String.[] = none
strip_prefix (String.◌∷◌ c p) (String.◌∷◌ d s) = if code c == code d then strip_prefix p s else none

pub strip_prefix-append : (p s : String) → strip_prefix p (p <> s) ≡ some s
unfolding strip_prefix ◌<>◌
strip_prefix-append String.[] s = refl
strip_prefix-append (String.◌∷◌ c p) s = ground (arith, strip_prefix-append p s)

-- `s.split("/", 1)[-1]`: what follows the first slash, or all of `s`.
unfoldable pub after_first : ℕ → String → Option String
after_first m String.[] = none
after_first m (String.◌∷◌ c s) = if code c == m then some s else after_first m s

unfoldable pub has_code : ℕ → String → Bool
has_code m String.[] = false
has_code m (String.◌∷◌ c s) = code c == m || has_code m s

-- `s.rsplit("/", 1)[-1]`: what follows the last slash, or all of `s`.
unfoldable pub after_last : ℕ → String → String
unfolding has_code
after_last m String.[] = String.[]
after_last m (String.◌∷◌ c s) =
    let rest = after_last m s in
    if has_code m s then rest else if code c == m then s else String.◌∷◌ c s

after_first-append_go :
    (m : ℕ) (p s : String) → has_code m p ≡ false → after_first m (p <> s) ≡ after_first m s
unfolding after_first has_code ◌<>◌
after_first-append_go m String.[] s h = refl
after_first-append_go m (String.◌∷◌ c p) s h = ground (arith, after_first-append_go m p s)

-- What stands before the first slash does not matter.
pub after_first-append :
    (m : ℕ) (p s : String) → has_code m p ≡ false → after_first m (p <> s) ≡ after_first m s
after_first-append = after_first-append_go

unfoldable pub is_lower : ℕ → Bool
is_lower c = leb b'a' c && leb c b'z'

unfoldable pub is_upper : ℕ → Bool
is_upper c = leb b'A' c && leb c b'Z'

unfoldable pub is_digit : ℕ → Bool
is_digit c = leb b'0' c && leb c b'9'

-- `[a-f0-9]`
unfoldable pub is_hex : ℕ → Bool
unfolding is_digit
is_hex c = leb b'a' c && leb c b'f' || is_digit c

-- A full match of `[first][rest]{0,most}`.
unfoldable pub matches : (ℕ → Bool) → (ℕ → Bool) → ℕ → String → Bool
unfolding every size
matches first rest most String.[] = false
matches first rest most (String.◌∷◌ c s) = first (code c) && every rest s && leb (size s) most

-- A full match of `prefix[a-f0-9]{16}`.
unfoldable pub matches_hex16 : String → String → Bool
matches_hex16 prefix s = elim (strip_prefix prefix s) [
  | none ↦ false
  | some rest ↦ every is_hex rest && size rest == 16
]

-- `[A-Za-z0-9]`
unfoldable pub is_alnum : ℕ → Bool
unfolding is_lower is_upper is_digit
is_alnum c = is_lower c || is_upper c || is_digit c

-- The white space that `str.strip` removes.
unfoldable pub is_space : ℕ → Bool
is_space c =
    leb 9 c && leb c 13
    || leb 28 c && leb c 32
    || c == 133
    || c == 160
    || c == 5760
    || leb 8192 c && leb c 8202
    || c == 8232
    || c == 8233
    || c == 8239
    || c == 8287
    || c == 12288

unfoldable pub lstrip : String → String
lstrip String.[] = String.[]
lstrip (String.◌∷◌ c s) = let rest = lstrip s in if is_space (code c) then rest else String.◌∷◌ c s

unfoldable pub rstrip : String → String
rstrip String.[] = String.[]
rstrip (String.◌∷◌ c s) =
    let rest = rstrip s in
    if is_space (code c) && rest == String.[] then String.[] else String.◌∷◌ c rest

-- `s.strip()`
unfoldable pub strip : String → String
unfolding lstrip rstrip
strip s = rstrip (lstrip s)

rstrip-rstrip : (s : String) → rstrip (rstrip s) ≡ rstrip s
unfolding rstrip
rstrip-rstrip String.[] = refl
rstrip-rstrip (String.◌∷◌ c s) = ground (arith, rstrip-rstrip s)

lstrip-rstrip : (s : String) → lstrip (rstrip (lstrip s)) ≡ rstrip (lstrip s)
unfolding lstrip rstrip
lstrip-rstrip String.[] = refl
lstrip-rstrip (String.◌∷◌ c s) = ground (arith, lstrip-rstrip s)

-- Stripping twice is stripping once.
pub strip-strip : (s : String) → strip (strip s) ≡ strip s
unfolding strip
strip-strip s = rw (lstrip-rstrip s) (rstrip-rstrip (lstrip s))

-- `s` without its suffix `p`, where it has it.
unfoldable pub strip_suffix : String → String → Option String
strip_suffix p String.[] = if p == String.[] then some String.[] else none
strip_suffix p (String.◌∷◌ c s) =
    let rest = strip_suffix p s in
    if String.◌∷◌ c s == p
    then some String.[]
    else elim rest [ none ↦ none | some r ↦ some (String.◌∷◌ c r) ]

has_code-strip_prefix :
    (m : ℕ) (p s r : String)
    → strip_prefix p s ≡ some r
    → has_code m p ≡ false
    → has_code m r ≡ false
    → has_code m s ≡ false
unfolding strip_prefix has_code
has_code-strip_prefix m String.[] s r h a b = ground arith
has_code-strip_prefix m (String.◌∷◌ c p) String.[] r h a b = cc
has_code-strip_prefix m (String.◌∷◌ c p) (String.◌∷◌ d s) r h a b =
    ground (arith, has_code-strip_prefix m p s r)

has_code-every :
    (m : ℕ) (s : String) → every is_hex s ≡ true → is_hex m ≡ false → has_code m s ≡ false
unfolding every has_code
has_code-every m String.[] h n = refl
has_code-every m (String.◌∷◌ c s) h n = ground (arith, has_code-every m s)

-- A code that stands in neither the prefix nor the hexadecimal digits is not in the text.
pub has_code-matches_hex16 :
    (m : ℕ) (p s : String)
    → matches_hex16 p s ≡ true
    → has_code m p ≡ false
    → is_hex m ≡ false
    → has_code m s ≡ false
unfolding matches_hex16
has_code-matches_hex16 m p s h a b = elim (Option-cases (strip_prefix p s)) [
  | inl e ↦ ground (arith, e)
  | inr (r, e) ↦ has_code-strip_prefix m p s r e a (has_code-every m r (ground (arith, e)) b)
]

pub append-nil : (a : String) → a <> "" ≡ a
unfolding ◌<>◌
append-nil String.[] = refl
append-nil (String.◌∷◌ c a) = ap (String.◌∷◌ c) (append-nil a)
