-- ===== src/Prelude/Sort.antt =====
-- `sort.Strings`: texts in the order of their code points, which is that of their UTF-8 bytes.
use Prim.Native.Nat.{ℕ, suc, compare, Ordering}
use mathlib.Core.Path.{◌≡◌, refl}
use mathlib.Core.Logic.{inl, inr}
use mathlib.Core.Bool.{Bool, true, false}
use mathlib.Core.List.{List, [], ◌∷◌, ◌++◌, Perm}
use mathlib.Core.List.Perm
use native.Mathlib.Omega.{arith}
use homelab_db_provisioner.Prelude.Tests.{Bool-cases, if◌then◌else◌}
use homelab_db_provisioner.Prelude.Lists.{length, All, take, drop, take-append-drop}
use homelab_db_provisioner.Prelude.Strings.{Text}

unfoldable pub text_leb : Text → Text → Bool
text_leb [] t = true
text_leb (c ∷ s) [] = false
text_leb (c ∷ s) (d ∷ t) =
    let rest = text_leb s t in
    elim (compare c d) [ Ordering.lt ↦ true | Ordering.eq ↦ rest | Ordering.gt ↦ false ]

unfoldable pub insert : Text → List Text → List Text
insert x [] = x ∷ []
insert x (y ∷ ys) = let rest = insert x ys in if text_leb x y then x ∷ (y ∷ ys) else y ∷ rest

unfoldable pub sort : List Text → List Text
unfolding insert text_leb
sort [] = []
sort (x ∷ xs) = insert x (sort xs)

abbrev pub TextLe : Text → Text → Type 0
TextLe s t = text_leb s t ≡ true

-- Every element is at most all those behind it.
abbrev pub IsSorted : List Text → Type 0
IsSorted [] = Unit
IsSorted (x ∷ xs) = All (TextLe x) xs × IsSorted xs

text_leb_total : (s t : Text) → text_leb s t ≡ false → text_leb t s ≡ true
unfolding text_leb
text_leb_total [] t h = cc
text_leb_total (c ∷ s) [] h = refl
text_leb_total (c ∷ s) (d ∷ t) h = ground (arith, text_leb_total s t)

text_leb_trans : (s t u : Text) → text_leb s t ≡ true → text_leb t u ≡ true → text_leb s u ≡ true
unfolding text_leb
text_leb_trans [] t u h k = refl
text_leb_trans (c ∷ s) [] u h k = cc
text_leb_trans (c ∷ s) (d ∷ t) [] h k = cc
text_leb_trans (c ∷ s) (d ∷ t) (e ∷ u) h k = ground (arith, text_leb_trans s t u)

pub TextLe-refl : (s : Text) → TextLe s s
unfolding text_leb
TextLe-refl [] = refl
TextLe-refl (c ∷ s) = ground (arith, TextLe-refl s)

pub TextLe-trans : (s t u : Text) → TextLe s t → TextLe t u → TextLe s u
TextLe-trans = text_leb_trans

All-le_trans : (x y : Text) (ys : List Text) → TextLe x y → All (TextLe y) ys → All (TextLe x) ys
All-le_trans x y [] h a = tt
All-le_trans x y (z ∷ zs) h a = (text_leb_trans x y z h a.0, All-le_trans x y zs h a.1)

All-insert : (P : Text → Type 0) (x : Text) (ys : List Text) → P x → All P ys → All P (insert x ys)
unfolding insert
All-insert P x [] px a = (px, tt)
All-insert P x (y ∷ ys) px a = elim (Bool-cases (text_leb x y)) [
  | inl e ↦ rw e (px, a)
  | inr e ↦ rw e (a.0, All-insert P x ys px a.1)
]

insert-IsSorted : (x : Text) (ys : List Text) → IsSorted ys → IsSorted (insert x ys)
unfolding insert
insert-IsSorted x [] s = (tt, tt)
insert-IsSorted x (y ∷ ys) s = elim (Bool-cases (text_leb x y)) [
  | inl e ↦ rw e ((e, All-le_trans x y ys e s.0), s)
  | inr e ↦ rw e (All-insert (TextLe y) x ys (text_leb_total x y e) s.0, insert-IsSorted x ys s.1)
]

pub sort-IsSorted : (xs : List Text) → IsSorted (sort xs)
unfolding sort
sort-IsSorted [] = tt
sort-IsSorted (x ∷ xs) = insert-IsSorted x (sort xs) (sort-IsSorted xs)

insert-perm : (x : Text) (ys : List Text) → Perm (insert x ys) (x ∷ ys)
unfolding insert
insert-perm x [] = Perm.refl (x ∷ [])
insert-perm x (y ∷ ys) = elim (Bool-cases (text_leb x y)) [
  | inl e ↦ rw e (Perm.refl (x ∷ (y ∷ ys)))
  | inr e ↦ rw e (Perm.trans (Perm.cons y (insert-perm x ys)) (Perm.swap x y ys))
]

pub sort-perm : (xs : List Text) → Perm (sort xs) xs
unfolding sort
sort-perm [] = Perm.refl []
sort-perm (x ∷ xs) = Perm.trans (insert-perm x (sort xs)) (Perm.cons x (sort-perm xs))

length-insert : (x : Text) (ys : List Text) → length (insert x ys) ≡ suc (length ys)
unfolding insert
length-insert x [] = refl
length-insert x (y ∷ ys) = ground (arith, length-insert x ys)

pub length-sort : (xs : List Text) → length (sort xs) ≡ length xs
unfolding sort
length-sort [] = refl
length-sort (x ∷ xs) = ground (arith, length-insert x (sort xs), length-sort xs)

All-back : (P : Text → Type 0) (xs ys : List Text) → All P (xs ++ ys) → All P ys
All-back P [] ys a = a
All-back P (x ∷ xs) ys a = All-back P xs ys a.1

-- Of a sorted list, what stands in front is at most what stands behind.
pub IsSorted-split :
    (xs ys : List Text) → IsSorted (xs ++ ys) → All (λ x. All (TextLe x) ys) xs × IsSorted ys
IsSorted-split [] ys s = (tt, s)
IsSorted-split (x ∷ xs) ys s =
    ((All-back (TextLe x) xs ys s.0, (IsSorted-split xs ys s.1).0), (IsSorted-split xs ys s.1).1)

insert-All : (P : Text → Type 0) (x : Text) (ys : List Text) → All P (insert x ys) → P x × All P ys
unfolding insert
insert-All P x [] a = a
insert-All P x (y ∷ ys) a = elim (Bool-cases (text_leb x y)) [
  | inl e ↦ rw e at a
  | inr e ↦
      let b : P y × All P (insert x ys) = rw e at a in
      let c = insert-All P x ys b.1 in (c.0, (b.0, c.1))
]

-- A property of all elements is one of all elements of the sorted list, and the other way round.
pub All-sort : (P : Text → Type 0) (xs : List Text) → All P xs → All P (sort xs)
unfolding sort
All-sort P [] a = tt
All-sort P (x ∷ xs) a = All-insert P x (sort xs) a.0 (All-sort P xs a.1)

pub sort-All : (P : Text → Type 0) (xs : List Text) → All P (sort xs) → All P xs
unfolding sort
sort-All P [] a = tt
sort-All P (x ∷ xs) a = let b = insert-All P x (sort xs) a in (b.0, sort-All P xs b.1)

-- A sorted list cut in two: the front is below the back, and nothing is lost.
pub take-drop-sort :
    (n : ℕ) (xs : List Text)
    → All (λ x. All (TextLe x) (drop n (sort xs))) (take n (sort xs))
      × Perm (take n (sort xs) ++ drop n (sort xs)) xs
take-drop-sort n xs =
    let e = take-append-drop n (sort xs) in
    (
      (IsSorted-split (take n (sort xs)) (drop n (sort xs)) (rw e (sort-IsSorted xs))).0,
      rw e (sort-perm xs),
    )
