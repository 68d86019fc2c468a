-- ===== src/Base/Sort.antt =====
-- `sort.Slice` by a Boolean `less`, as an insertion sort. Go leaves the order of elements that
-- `less` does not tell apart open, so what is said of a caller must not rest on this choice:
-- `Ascending-eq_of_perm` is about every ascending arrangement.
use mathlib.Core.Path.{◌≡◌, ap₂}
use mathlib.Core.Logic.{inl, inr}
use mathlib.Core.Logic.Or
use mathlib.Core.Bool.{Bool, true, false, Bool-set}
use mathlib.Core.List.{List, [], ◌∷◌, Mem, Perm, mem-cons, mem-cons_self, not-mem-nil}
use mathlib.Core.List.Perm
use native.Mathlib.Omega.{arith}
use smolllm_server.Base.Tests.{if◌then◌else◌, Bool-cases}
use smolllm_server.Base.Lists.{All, All-map}
use smolllm_server.Base.Strings.{
  Text, text_less, text_less_irrefl, text_less_trans, text_less_cotrans, text_less_total, order_by,
}

module _ {ℓ κ} {A : Type ℓ} {P : A → Type κ} where
  pub All_of_mem : (xs : List A) → ((a : A) → Mem a xs → P a) → All P xs
  All_of_mem [] h = tt
  All_of_mem (x ∷ xs) h = (h x mem-cons_self, All_of_mem xs (λ a m. h a (mem-cons.1 (Or.inr m))))

  pub mem_of_All : ((a : A) → IsProp (P a)) → (xs : List A) → All P xs → (a : A) → Mem a xs → P a
  mem_of_All prop [] h a m = absurd (not-mem-nil m)
  mem_of_All prop (x ∷ xs) (p, h) a m =
      Or.elim (prop a) (mem-cons.0 m) (λ e. rw e p) (mem_of_All prop xs h a)

  pub All-perm : ((a : A) → IsProp (P a)) → (xs ys : List A) → Perm xs ys → All P xs → All P ys
  All-perm prop xs ys p h = All_of_mem ys (λ a m. mem_of_All prop xs h a ((Perm.mem_iff p).1 m))

module _ {ℓ} {A : Type ℓ} (less : A → A → Bool) where
  unfoldable pub insert_sorted : A → List A → List A
  insert_sorted x [] = x ∷ []
  insert_sorted x (y ∷ ys) =
      let rest = insert_sorted x ys in if less y x then y ∷ rest else x ∷ y ∷ ys

  unfoldable pub sort_slice : List A → List A
  unfolding insert_sorted
  sort_slice [] = []
  sort_slice (x ∷ xs) = insert_sorted x (sort_slice xs)

  -- No later element is less than an earlier one.
  abbrev pub Ascending : List A → Type ℓ
  Ascending [] = Unit
  Ascending (x ∷ xs) = All (λ y. less y x ≡ false) xs × Ascending xs

  pub insert_sorted-perm : (x : A) (l : List A) → Perm (insert_sorted x l) (x ∷ l)
  unfolding insert_sorted
  insert_sorted-perm x [] = Perm.rfl
  insert_sorted-perm x (y ∷ ys) = elim (Bool-cases (less y x)) [
    | inl p ↦ rw p (Perm.trans (Perm.cons y (insert_sorted-perm x ys)) (Perm.swap x y ys))
    | inr p ↦ rw p Perm.rfl
  ]

  pub sort_slice-perm : (l : List A) → Perm (sort_slice l) l
  unfolding sort_slice
  sort_slice-perm [] = Perm.rfl
  sort_slice-perm (x ∷ xs) =
      Perm.trans (insert_sorted-perm x (sort_slice xs)) (Perm.cons x (sort_slice-perm xs))

  -- what `sort.Slice` asks of `less`: a strict weak order
  pub record IsOrder : Type ℓ where
    pub irrefl : (a : A) → less a a ≡ false
    pub trans : (a b c : A) → less a b ≡ true → less b c ≡ true → less a c ≡ true
    pub cotrans : (a b c : A) → less a b ≡ false → less b c ≡ false → less a c ≡ false

  module _ (o : IsOrder) where
    asymm : (a b : A) → less a b ≡ true → less b a ≡ false
    asymm a b h = ground (arith, o.trans a b a h, o.irrefl a)

    insert_sorted-All :
        (z x : A) (l : List A)
        → less x z ≡ false
        → All (λ y. less y z ≡ false) l
        → All (λ y. less y z ≡ false) (insert_sorted x l)
    unfolding insert_sorted
    insert_sorted-All z x [] h k = (h, tt)
    insert_sorted-All z x (y ∷ ys) h (k, ks) = ground (arith, insert_sorted-All z x ys h ks)

    pub insert_sorted-Ascending : (x : A) (l : List A) → Ascending l → Ascending (insert_sorted x l)
    unfolding insert_sorted
    insert_sorted-Ascending x [] s = (tt, tt)
    insert_sorted-Ascending x (y ∷ ys) (below, s) = elim (Bool-cases (less y x)) [
      | inl p ↦ rw p (insert_sorted-All y x ys (asymm y x p) below, insert_sorted-Ascending x ys s)
      | inr p ↦ rw p ((p, All-map (λ z k. o.cotrans z y x k p) ys below), (below, s))
    ]

    pub sort_slice-Ascending : (l : List A) → Ascending (sort_slice l)
    unfolding sort_slice
    sort_slice-Ascending [] = tt
    sort_slice-Ascending (x ∷ xs) =
        insert_sorted-Ascending x (sort_slice xs) (sort_slice-Ascending xs)

  -- `less` tells any two different elements of the list apart.
  abbrev pub Separates : List A → Type ℓ
  Separates l = (a b : A) → Mem a l → Mem b l → less a b ≡ false → less b a ≡ false → a ≡ b

  module _ (o : IsOrder) where
    head_least : (a b : A) (l : List A) → Ascending (a ∷ l) → Mem b (a ∷ l) → less b a ≡ false
    head_least a b l (below, s) m =
        Or.elim (Bool-set _ _) (mem-cons.0 m) (λ e. rw e (o.irrefl a))
          (mem_of_All (λ c. Bool-set _ _) l below b)

    pub Ascending-eq_of_perm :
        (l r : List A) → Separates l → Ascending l → Ascending r → Perm l r → l ≡ r
    Ascending-eq_of_perm [] r sep s t p = Perm.nil-eq p
    Ascending-eq_of_perm (a ∷ l) [] sep s t p = Perm.eq-nil p
    Ascending-eq_of_perm (a ∷ l) (b ∷ r) sep s t p =
        let b_in : Mem b (a ∷ l) = (Perm.mem_iff p).1 mem-cons_self in
        let a_in : Mem a (b ∷ r) = (Perm.mem_iff p).0 mem-cons_self in
        let heads =
          sep a b mem-cons_self b_in (head_least b a r t a_in) (head_least a b l s b_in) in
        let tails = Perm.cons_inv (Perm.trans p (Perm.symm (Perm.cons' heads Perm.rfl))) in
        let later : Separates l =
          λ x y mx my. sep x y (mem-cons.1 (Or.inr mx)) (mem-cons.1 (Or.inr my)) in
        ap₂ ◌∷◌ heads (Ascending-eq_of_perm l r later s.1 t.1 tails)

-- The orders of the program compare one text after another.
module _ {ℓ} {A : Type ℓ} (f : A → Text) where
  pub by-IsOrder : IsOrder (λ a b. text_less (f a) (f b))
  by-IsOrder = record {
    irrefl = λ a. text_less_irrefl (f a);
    trans = λ a b c. text_less_trans (f a) (f b) (f c);
    cotrans = λ a b c. text_less_cotrans (f a) (f b) (f c);
  }

  module _ {less : A → A → Bool} (o : IsOrder less) where
    abbrev then_by : A → A → Bool
    then_by a b = order_by (f a) (f b) (less a b)

    then_by_irrefl : (a : A) → then_by a a ≡ false
    then_by_irrefl a = ground (arith, o.irrefl a)

    then_by_trans : (a b c : A) → then_by a b ≡ true → then_by b c ≡ true → then_by a c ≡ true
    then_by_trans a b c p q = ground (
      arith,
      o.trans a b c,
      text_less_trans (f a) (f b) (f c),
      text_less_trans (f a) (f b) (f a),
      text_less_irrefl (f a),
    )

    then_by_cotrans : (a b c : A) → then_by a b ≡ false → then_by b c ≡ false → then_by a c ≡ false
    then_by_cotrans a b c p q = ground (
      arith,
      o.cotrans a b c,
      text_less_cotrans (f a) (f b) (f c),
      text_less_total (f a) (f b),
      text_less_total (f b) (f c),
    )

    pub order_by-IsOrder : IsOrder (λ a b. order_by (f a) (f b) (less a b))
    order_by-IsOrder = record {
      irrefl = then_by_irrefl;
      trans = then_by_trans;
      cotrans = then_by_cotrans;
    }
