-- ===== src/RouteProxy/Sse.antt =====
-- `_has_sse_data_event`: whether a buffer holds a whole event with a data line. Bytes are numbers.
use orichum.Base.{
  ℕ, Bool, true, false, ◌&&◌, List, [], ◌∷◌, ◌++◌, ◌≡◌, refl, ◌∙◌, ap, inl, inr, Bool-cases, ◌==◌,
  nat_eq, if◌then◌else◌, arith, any,
}

abbrev pub Bytes : Type 0
Bytes = List ℕ

-- `payload.replace(b"\r\n", b"\n").replace(b"\r", b"\n")`
unfoldable pub normalize : Bytes → Bytes
normalize [] = []
normalize (c ∷ []) = (if c == 13 then 10 else c) ∷ []
normalize (c ∷ d ∷ rest) =
    let more = normalize (d ∷ rest) in
    if c == 13 then (if d == 10 then more else 10 ∷ more) else c ∷ more

-- `event.split(b"\n")`, and `payload.split(b"\n\n")`. A piece that is read further grows by `grow`.
unfoldable pub grow : ℕ → List Bytes → List Bytes
grow c [] = (c ∷ []) ∷ []
grow c (x ∷ xs) = (c ∷ x) ∷ xs

unfoldable pub lines : Bytes → List Bytes
lines [] = [] ∷ []
lines (c ∷ rest) = let more = lines rest in if c == 10 then [] ∷ more else grow c more

unfoldable pub blocks : Bytes → List Bytes
blocks [] = [] ∷ []
blocks (c ∷ []) = (c ∷ []) ∷ []
blocks (c ∷ d ∷ rest) =
    let short = blocks rest in
    let long = blocks (d ∷ rest) in if c == 10 && d == 10 then [] ∷ short else grow c long

-- `[:-1]`
unfoldable pub but_last : List Bytes → List Bytes
but_last [] = []
but_last (x ∷ []) = []
but_last (x ∷ y ∷ l) = x ∷ but_last (y ∷ l)

-- `line == b"data" or line.startswith(b"data:")`
unfoldable pub is_data_line : Bytes → Bool
is_data_line (a ∷ b ∷ c ∷ d ∷ rest) =
    a == b'd'
    && b == b'a'
    && c == b't'
    && d == b'a'
    && elim rest [ [] ↦ true | e ∷ more ↦ e == b':' ]
is_data_line l = false

unfoldable pub has_sse_data_event : Bytes → Bool
has_sse_data_event payload =
    any (λ event. any is_data_line (lines event)) (but_last (blocks (normalize payload)))

-- A line feed is kept, whatever follows it.
normalize-lf : (d : ℕ) (q : Bytes) → d ≡ 10 → (s : Bytes) × (normalize (d ∷ q) ≡ 10 ∷ s)
unfolding normalize
normalize-lf d [] h = ([], ground arith)
normalize-lf d (e ∷ q) h = (normalize (e ∷ q), ground arith)

normalize-append_one :
    (c d : ℕ) (q : Bytes) → (s : Bytes) × (normalize (c ∷ d ∷ q) ≡ (if c == 13 then 10 else c) ∷ s)
unfolding normalize
normalize-append_one c d q = elim (Bool-cases (d == 10)) [
  | inr n ↦ (normalize (d ∷ q), ground (arith, n))
  | inl t ↦ elim (Bool-cases (c == 13)) [
    | inr m ↦ (normalize (d ∷ q), ground (arith, m))
    | inl u ↦ let (s, e) = normalize-lf d q (ground arith) in (s, ground (arith, t, u, e))
  ]
]

-- What has been read stays read: the normalised bytes and the whole events only grow.
normalize-append : (p q : Bytes) → (s : Bytes) × (normalize (p ++ q) ≡ normalize p ++ s)
unfolding normalize
normalize-append [] q = (normalize q, refl)
normalize-append (c ∷ []) [] = ([], refl)
normalize-append (c ∷ []) (d ∷ q) = normalize-append_one c d q
normalize-append (c ∷ d ∷ p) q = let (s, e) = normalize-append (d ∷ p) q in (s, ground (arith, e))

but_last-grow :
    (c : ℕ) (a b t : List Bytes)
    → but_last b ≡ but_last a ++ t
    → (u : List Bytes) × (but_last (grow c b) ≡ but_last (grow c a) ++ u)
unfolding but_last grow
but_last-grow c [] b t h = (but_last (grow c b), refl)
but_last-grow c (x ∷ []) b t h = (but_last (grow c b), refl)
but_last-grow c (x ∷ y ∷ l) [] t h = cc
but_last-grow c (x ∷ y ∷ l) (z ∷ []) t h = cc
but_last-grow c (x ∷ y ∷ l) (z ∷ w ∷ m) t h = (t, ground arith)

grow-cons : (c : ℕ) (l : List Bytes) → (x : Bytes) × (r : List Bytes) × (grow c l ≡ x ∷ r)
unfolding grow
grow-cons c [] = (c ∷ [], [], refl)
grow-cons c (x ∷ xs) = (c ∷ x, xs, refl)

blocks-cons : (b : Bytes) → (x : Bytes) × (l : List Bytes) × (blocks b ≡ x ∷ l)
unfolding blocks
blocks-cons [] = ([], [], refl)
blocks-cons (c ∷ []) = (c ∷ [], [], refl)
blocks-cons (c ∷ d ∷ rest) = elim (Bool-cases (c == 10 && d == 10)) [
  | inl t ↦ ([], blocks rest, rw t)
  | inr n ↦ let (x, r, e) = grow-cons c (blocks (d ∷ rest)) in (x, r, rw n e)
]

but_last-blocks : (x : Bytes) (b : Bytes) → but_last (x ∷ blocks b) ≡ x ∷ but_last (blocks b)
but_last-blocks x b = let (y, l, e) = blocks-cons b in unfold but_last in rw e

blocks-append :
    (p q : Bytes) → (t : List Bytes) × (but_last (blocks (p ++ q)) ≡ but_last (blocks p) ++ t)
unfolding blocks
blocks-append [] q = (but_last (blocks q), unfold but_last in refl)
blocks-append (c ∷ []) q = (but_last (blocks (c ∷ q)), unfold but_last in refl)
blocks-append (c ∷ d ∷ p) q =
    let (t, e) = blocks-append p q in
    let (u, f) = blocks-append (d ∷ p) q in
    let (v, g) = but_last-grow c (blocks (d ∷ p)) (blocks (d ∷ p ++ q)) u f in
    elim (Bool-cases (c == 10 && d == 10)) [
      | inl s ↦
          (t, rw s (but_last-blocks [] (p ++ q) ∙ ap (λ l. [] ∷ l) e ∙ rw (but_last-blocks [] p)))
      | inr n ↦ (v, rw n g)
    ]

any-append_left :
    (p : Bytes → Bool) (xs ys : List Bytes) → any p xs ≡ true → any p (xs ++ ys) ≡ true
any-append_left p [] ys h = cc
any-append_left p (x ∷ xs) ys h = ground (arith, any-append_left p xs ys)

-- A buffer that holds a whole data event holds it however much is read further.
pub has_sse_data_event-append :
    (p q : Bytes) → has_sse_data_event p ≡ true → has_sse_data_event (p ++ q) ≡ true
unfolding has_sse_data_event
has_sse_data_event-append p q h =
    let (s, e) = normalize-append p q in
    let (t, f) = blocks-append (normalize p) s in
    rw (e, f) (any-append_left (λ event. any is_data_line (lines event)) _ t h)
