-- ===== src/Text/Order/Sorted.antt =====
-- The sort of Text/Order.antt: its result ascends, is a permutation of the names, and does not
-- depend on the order in which they came.
use native.Mathlib.Omega.{arith}
use text.Mathlib.TextEquality.{Char-path}
use mathlib.Core.Bool.{Bool-set}
use mathlib.Core.Path.{ap₂, subst}
use mathlib.Core.List.{
  Mem, Perm, Pairwise, append-nil, reverse_perm, Pairwise-reverse, mem-cons_self, forall_mem-cons,
  Pairwise-singleton, perm_middle,
}
use mathlib.Core.List.Perm
use mathlib.Core.List.Pairwise
use mrdns.Prelude.{String, true, false, List, [], ◌∷◌, ◌++◌, ◌≡◌, refl, Bool-cases, inl, inr, arith}
use mrdns.Text.Order.{less, insert_back, insert_all, insertion_sort}

less_asym : (s t : String) → less s t ≡ true → less t s ≡ false
unfolding less
less_asym String.[] String.[] h = refl
less_asym String.[] (String.◌∷◌ d t) h = refl
less_asym (String.◌∷◌ c s) String.[] h = ground (arith, h)
less_asym (String.◌∷◌ c s) (String.◌∷◌ d t) h = ground (arith, h, less_asym s t)

less_irrefl : (s : String) → less s s ≡ false
less_irrefl s = elim (Bool-cases (less s s)) [ inl e ↦ less_asym s s e | inr e ↦ e ]

less_antisym : (s t : String) → less s t ≡ false → less t s ≡ false → s ≡ t
unfolding less
less_antisym String.[] String.[] h k = refl
less_antisym String.[] (String.◌∷◌ d t) h k = absurd (ground (arith, h))
less_antisym (String.◌∷◌ c s) String.[] h k = absurd (ground (arith, k))
less_antisym (String.◌∷◌ c s) (String.◌∷◌ d t) h k =
    ap₂ String.◌∷◌ (Char-path c d (ground (arith, h, k)))
      (less_antisym s t (ground (arith, h, k)) (ground (arith, h, k)))

not_less_trans : (s t u : String) → less t s ≡ false → less u t ≡ false → less u s ≡ false
unfolding less
not_less_trans String.[] t String.[] h k = refl
not_less_trans String.[] t (String.◌∷◌ e u) h k = refl
not_less_trans (String.◌∷◌ c s) String.[] u h k = absurd (ground (arith, h))
not_less_trans (String.◌∷◌ c s) (String.◌∷◌ d t) String.[] h k = absurd (ground (arith, k))
not_less_trans (String.◌∷◌ c s) (String.◌∷◌ d t) (String.◌∷◌ e u) h k =
    ground (arith, h, k, not_less_trans s t u)

-- `a` may stand before `b`.
abbrev pub NotAfter : String → String → Type 0
NotAfter a b = less b a ≡ false

NotAfter-prop : (a b : String) → IsProp (NotAfter a b)
NotAfter-prop a b = Bool-set (less b a) false

abbrev pub Ascends : List String → Type 0
Ascends = Pairwise NotAfter

abbrev Descends : List String → Type 0
Descends = Pairwise (λ a b. NotAfter b a)

insert_back-Perm : (x : String) (ys : List String) → Perm (insert_back x ys) (x ∷ ys)
unfolding insert_back
insert_back-Perm x [] = Perm.rfl
insert_back-Perm x (y ∷ ys) = elim (Bool-cases (less x y)) [
  | inl e ↦ rw e (Perm.trans (Perm.cons y (insert_back-Perm x ys)) (Perm.swap x y ys))
  | inr e ↦ rw e Perm.rfl
]

-- What is true of a head and of every name behind it, is true of every name after an insertion.
below-insert :
    (x y : String) (ys : List String)
    → NotAfter x y
    → ((b : String) → Mem b ys → NotAfter b y)
    → (b : String) → Mem b (insert_back x ys)
    → NotAfter b y
below-insert x y ys h k b m =
    (forall_mem-cons {p = λ b. NotAfter b y} (λ b. NotAfter-prop b y)).1 (h, k) b
      ((Perm.mem_iff (insert_back-Perm x ys)).0 m)

insert_back-Descends : (x : String) (ys : List String) → Descends ys → Descends (insert_back x ys)
unfolding insert_back
insert_back-Descends x [] h = Pairwise-singleton _ x
insert_back-Descends x (y ∷ ys) (Pairwise.cons h p) = elim (Bool-cases (less x y)) [
  | inl e ↦
      rw e (Pairwise.cons (below-insert x y ys (less_asym x y e) h) (insert_back-Descends x ys p))
  | inr e ↦ rw e (
      Pairwise.cons
        ((forall_mem-cons {p = λ b. NotAfter b x} (λ b. NotAfter-prop b x)).1
          (e, λ b m. not_less_trans b y x (h b m) e))
        (Pairwise.cons h p))
]

insert_all-Descends : (xs ys : List String) → Descends ys → Descends (insert_all xs ys)
unfolding insert_all
insert_all-Descends [] ys h = h
insert_all-Descends (x ∷ xs) ys h = insert_all-Descends xs _ (insert_back-Descends x ys h)

insert_all-Perm : (xs ys : List String) → Perm (insert_all xs ys) (xs ++ ys)
unfolding insert_all
insert_all-Perm [] ys = Perm.rfl
insert_all-Perm (x ∷ xs) ys =
    Perm.trans (insert_all-Perm xs (insert_back x ys))
      (Perm.trans (Perm.append_left xs (insert_back-Perm x ys)) (perm_middle xs ys))

heads_same :
    (a b : String) (l r : List String) → Ascends (a ∷ l) → Perm (b ∷ r) (a ∷ l) → NotAfter a b
heads_same a b l r (Pairwise.cons h t) p =
    (forall_mem-cons {p = NotAfter a} (NotAfter-prop a)).1 (less_irrefl a, h) b
      ((Perm.mem_iff p).0 mem-cons_self)

Ascends-eq_of_perm : (l r : List String) → Ascends l → Ascends r → Perm l r → l ≡ r
Ascends-eq_of_perm [] r s t p = Perm.nil-eq p
Ascends-eq_of_perm (a ∷ l) [] s t p = Perm.eq-nil p
Ascends-eq_of_perm (a ∷ l) (b ∷ r) s t p =
    let heads = less_antisym a b (heads_same b a r l t p) (heads_same a b l r s (Perm.symm p)) in
    ap₂ ◌∷◌ heads (
      Ascends-eq_of_perm l r (Pairwise.of_cons s) (Pairwise.of_cons t)
        (Perm.cons_inv (Perm.trans p (Perm.symm (Perm.cons' heads Perm.rfl)))))

-- The sorted list is the only ascending one with the given names.
pub insertion_sort_lem :
    (names : List String) → Ascends (insertion_sort names) × Perm (insertion_sort names) names
unfolding insertion_sort
insertion_sort_lem names = (
  (Pairwise-reverse NotAfter-prop).1 (insert_all-Descends names [] Pairwise.nil),
  Perm.trans (reverse_perm (insert_all names []))
      (subst (Perm (insert_all names [])) (append-nil names) (insert_all-Perm names [])),
)

pub insertion_sort-same : (l r : List String) → Perm l r → insertion_sort l ≡ insertion_sort r
insertion_sort-same l r p =
    let (sl, pl) = insertion_sort_lem l in
    let (sr, pr) = insertion_sort_lem r in
    Ascends-eq_of_perm _ _ sl sr (Perm.trans pl (Perm.trans p (Perm.symm pr)))
