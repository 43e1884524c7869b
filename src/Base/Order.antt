-- ===== src/Base/Order.antt =====
-- The byte order of Go strings, and `sort.Strings`.
use hrobot_go.Base.Tests.{◌==◌, ltb, if◌then◌else◌, Bool-cases}
use hrobot_go.Base.Lists.{count, All, count-cons_self, count-cons_ne, count-nil, eq_or_ne}
use hrobot_go.Base.Text.{Bytes, text_eq}
use Prim.Native.Nat.{◌<◌}
use mathlib.Core.Path.{◌≡◌, refl, sym, ◌∙◌, ap, ap₂}
use mathlib.Core.Logic.{inl, inr}
use mathlib.Core.Bool.{Bool, true, false, ◌&&◌, ◌||◌}
use mathlib.Core.List.{List, [], ◌∷◌}
use native.Mathlib.Omega.{arith}

-- `a <= b` on strings.
unfoldable pub text_leb : Bytes → Bytes → Bool
text_leb [] b = true
text_leb (x ∷ a) [] = false
text_leb (x ∷ a) (y ∷ b) = ltb x y || (x == y && text_leb a b)

text_leb_refl : (a : Bytes) → text_leb a a ≡ true
unfolding text_leb
text_leb_refl [] = refl
text_leb_refl (x ∷ a) = ground (arith, text_leb_refl a)

pub text_leb_antisym : (a b : Bytes) → text_leb a b ≡ true → text_leb b a ≡ true → a ≡ b
unfolding text_leb
text_leb_antisym [] [] h k = refl
text_leb_antisym [] (y ∷ b) h k = ground arith
text_leb_antisym (x ∷ a) [] h k = ground arith
text_leb_antisym (x ∷ a) (y ∷ b) h k = ground (arith, text_leb_antisym a b)

pub text_leb_total : (a b : Bytes) → text_leb a b ≡ false → text_leb b a ≡ true
unfolding text_leb
text_leb_total [] b h = ground arith
text_leb_total (x ∷ a) [] h = refl
text_leb_total (x ∷ a) (y ∷ b) h = ground (arith, text_leb_total a b)

pub text_leb_trans :
    (a b c : Bytes) → text_leb a b ≡ true → text_leb b c ≡ true → text_leb a c ≡ true
unfolding text_leb
text_leb_trans [] b c h k = refl
text_leb_trans (x ∷ a) [] c h k = ground arith
text_leb_trans (x ∷ a) (y ∷ b) [] h k = ground arith
text_leb_trans (x ∷ a) (y ∷ b) (z ∷ c) h k = ground (arith, text_leb_trans a b c)

unfoldable pub insert_sorted : Bytes → List Bytes → List Bytes
insert_sorted a [] = a ∷ []
insert_sorted a (b ∷ bs) = if text_leb a b then a ∷ b ∷ bs else b ∷ insert_sorted a bs

unfoldable pub sort_strings : List Bytes → List Bytes
unfolding insert_sorted
sort_strings [] = []
sort_strings (a ∷ as') = insert_sorted a (sort_strings as')

-- Ascending, each element against all that follow it.
abbrev pub IsAscending : List Bytes → Type 0
IsAscending [] = Unit
IsAscending (a ∷ as') = All (λ b. text_leb a b ≡ true) as' × IsAscending as'

count-cons_congr :
    (k a : Bytes) (xs ys : List Bytes)
    → count k xs ≡ count k ys
    → count k (a ∷ xs) ≡ count k (a ∷ ys)
unfolding count
count-cons_congr k a xs ys h = omega arith

count-cons_swap : (k a b : Bytes) (xs : List Bytes) → count k (a ∷ b ∷ xs) ≡ count k (b ∷ a ∷ xs)
unfolding count
count-cons_swap k a b xs = omega arith

count-insert_sorted :
    (k a : Bytes) (bs : List Bytes) → count k (insert_sorted a bs) ≡ count k (a ∷ bs)
unfolding insert_sorted
count-insert_sorted k a [] = refl
count-insert_sorted k a (b ∷ bs) = elim (Bool-cases (text_leb a b)) [
  | inl below ↦ rw below
  | inr above ↦ rw above (
      count-cons_congr k b (insert_sorted a bs) (a ∷ bs) (count-insert_sorted k a bs)
      ∙ count-cons_swap k b a bs)
]

pub count-sort_strings : (k : Bytes) (as' : List Bytes) → count k (sort_strings as') ≡ count k as'
unfolding sort_strings
count-sort_strings k [] = refl
count-sort_strings k (a ∷ as') =
    count-insert_sorted k a (sort_strings as')
    ∙ count-cons_congr k a (sort_strings as') as' (count-sort_strings k as')

All-insert_sorted :
    (c a : Bytes) (bs : List Bytes)
    → text_leb c a ≡ true
    → All (λ b. text_leb c b ≡ true) bs
    → All (λ b. text_leb c b ≡ true) (insert_sorted a bs)
unfolding insert_sorted
All-insert_sorted c a [] h hs = (h, tt)
All-insert_sorted c a (b ∷ bs) h hs = ground (arith, All-insert_sorted c a bs h hs.1)

count-cons_cancel :
    (k a : Bytes) (xs ys : List Bytes)
    → count k (a ∷ xs) ≡ count k (a ∷ ys)
    → count k xs ≡ count k ys
unfolding count
count-cons_cancel k a xs ys h = omega arith

All-le_trans :
    (a b : Bytes) (bs : List Bytes)
    → text_leb a b ≡ true
    → All (λ c. text_leb b c ≡ true) bs
    → All (λ c. text_leb a c ≡ true) bs
All-le_trans a b [] h hs = tt
All-le_trans a b (c ∷ bs) h (hc, hs) = (text_leb_trans a b c h hc, All-le_trans a b bs h hs)

insert_sorted-IsAscending :
    (a : Bytes) (bs : List Bytes) → IsAscending bs → IsAscending (insert_sorted a bs)
unfolding insert_sorted
insert_sorted-IsAscending a [] h = (tt, tt)
insert_sorted-IsAscending a (b ∷ bs) (hb, hbs) = elim (Bool-cases (text_leb a b)) [
  | inl yes' ↦ rw yes' ((yes', All-le_trans a b bs yes' hb), (hb, hbs))
  | inr no' ↦
      rw no'
        (All-insert_sorted b a bs (text_leb_total a b no') hb, insert_sorted-IsAscending a bs hbs)
]

pub sort_strings-IsAscending : (as' : List Bytes) → IsAscending (sort_strings as')
unfolding sort_strings
sort_strings-IsAscending [] = tt
sort_strings-IsAscending (a ∷ as') =
    insert_sorted-IsAscending a (sort_strings as') (sort_strings-IsAscending as')

-- Texts in ascending order are left in it.
pub sort_strings_ascending : (as' : List Bytes) → IsAscending as' → sort_strings as' ≡ as'
unfolding sort_strings
sort_strings_ascending [] h = refl
sort_strings_ascending (a ∷ as') (ha, h) =
    ap (insert_sorted a) (sort_strings_ascending as' h) ∙ least a as' ha
  where
    least :
        (a : Bytes) (bs : List Bytes)
        → All (λ b. text_leb a b ≡ true) bs
        → insert_sorted a bs ≡ a ∷ bs
    least a [] h = unfold insert_sorted in refl
    least a (b ∷ bs) h = unfold insert_sorted in rw (h.0) refl

count-pos_le :
    (a x : Bytes) (xs : List Bytes)
    → All (λ b. text_leb x b ≡ true) xs
    → 0 < count a (x ∷ xs)
    → text_leb x a ≡ true
count-pos_le a x xs h p = elim (eq_or_ne x a) [
  | inl e ↦ rw e (text_leb_refl a)
  | inr n ↦ later xs h (rw (count-cons_ne a x xs n) at p)
]
  where
    later :
        (xs : List Bytes) → All (λ b. text_leb x b ≡ true) xs → 0 < count a xs → text_leb x a ≡ true
    later [] h p = absurd (omega (arith, count-nil a))
    later (y ∷ ys) (hy, hs) p = elim (eq_or_ne y a) [
      | inl e ↦ rw e at hy
      | inr n ↦ later ys hs (rw (count-cons_ne a y ys n) at p)
    ]

-- A text that occurs as often in two ascending lists, for every text, makes them equal.
pub IsAscending-unique :
    (xs ys : List Bytes)
    → IsAscending xs
    → IsAscending ys
    → ((a : Bytes) → count a xs ≡ count a ys)
    → xs ≡ ys
IsAscending-unique [] [] hx hy h = refl
IsAscending-unique [] (y ∷ ys) hx hy h =
    absurd (omega (arith, h y, count-cons_self y ys, count-nil y))
IsAscending-unique (x ∷ xs) [] hx hy h =
    absurd (omega (arith, h x, count-cons_self x xs, count-nil x))
IsAscending-unique (x ∷ xs) (y ∷ ys) (hx, hxs) (hy, hys) h =
    join_heads (heads x xs y ys hx hy h)
      (λ e. IsAscending-unique xs ys hxs hys (tails x xs y ys e h))
  where
    heads :
        (x : Bytes) (xs : List Bytes) (y : Bytes) (ys : List Bytes)
        → All (λ b. text_leb x b ≡ true) xs
        → All (λ b. text_leb y b ≡ true) ys
        → ((a : Bytes) → count a (x ∷ xs) ≡ count a (y ∷ ys))
        → x ≡ y
    heads x xs y ys hx hy h =
        text_leb_antisym x y (count-pos_le y x xs hx (omega (arith, h y, count-cons_self y ys)))
          (count-pos_le x y ys hy (omega (arith, h x, count-cons_self x xs)))

    tails :
        (x : Bytes) (xs : List Bytes) (y : Bytes) (ys : List Bytes)
        → x ≡ y
        → ((a : Bytes) → count a (x ∷ xs) ≡ count a (y ∷ ys))
        → (a : Bytes) → count a xs ≡ count a ys
    tails x xs y ys e h a = count-cons_cancel a x xs ys (h a ∙ ap (λ z. count a (z ∷ ys)) (sym e))

    join_heads : x ≡ y → (x ≡ y → xs ≡ ys) → ◌≡◌ {A = List Bytes} (x ∷ xs) (y ∷ ys)
    join_heads e f = ap₂ (λ (z : Bytes) (zs : List Bytes). z ∷ zs) e (f e)

-- `sort.Strings` sorts every order of the same texts to the same list.
pub sort_strings_unique :
    (xs ys : List Bytes)
    → ((a : Bytes) → count a xs ≡ count a ys)
    → sort_strings xs ≡ sort_strings ys
sort_strings_unique xs ys h =
    IsAscending-unique (sort_strings xs) (sort_strings ys) (sort_strings-IsAscending xs)
      (sort_strings-IsAscending ys)
      (λ a. count-sort_strings a xs ∙ h a ∙ sym (count-sort_strings a ys))
