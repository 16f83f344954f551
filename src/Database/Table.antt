-- ===== src/Database/Table.antt =====
-- A table: its rows, found by their primary key.
use online_coding_judge.Prelude.{
  ℕ, ◌+◌, ◌≡◌, refl, Bool, true, false, List, [], ◌∷◌, Option, none, some, is_some, ◌==◌, ◌||◌, leb,
  if◌then◌else◌, arith,
}

abbrev pub map_option {ℓ κ} : {A : Type ℓ} {B : Type κ} → (A → B) → Option A → Option B
map_option f none = none
map_option f (some a) = some (f a)

module _ {ℓ} {A : Type ℓ} (key : A → ℕ) where
  -- SELECT … WHERE id = k
  unfoldable pub find : ℕ → List A → Option A
  find k [] = none
  find k (x ∷ xs) = if key x == k then some x else find k xs

  -- INSERT, which the primary key refuses where it is taken.
  unfoldable pub insert : A → List A → Option (List A)
  insert x xs = if is_some (find (key x) xs) then none else some (x ∷ xs)

module _ {ℓ} {A : Type ℓ} where
  -- UPDATE … WHERE p
  unfoldable pub update : (A → Bool) → (A → A) → List A → List A
  update p f [] = []
  update p f (x ∷ xs) = (if p x then f x else x) ∷ update p f xs

  -- SELECT … WHERE p
  unfoldable pub select : (A → Bool) → List A → List A
  select p [] = []
  select p (x ∷ xs) = let rest = select p xs in if p x then x ∷ rest else rest

  -- EXISTS(SELECT … WHERE p)
  unfoldable pub exists : (A → Bool) → List A → Bool
  exists p [] = false
  exists p (x ∷ xs) = p x || exists p xs

  -- ORDER BY, where rows that are equal in the order may come in any order.
  unfoldable pub place : (A → A → Bool) → A → List A → List A
  place le x [] = x ∷ []
  place le x (y ∷ ys) = let rest = place le x ys in if le x y then x ∷ y ∷ ys else y ∷ rest

  unfoldable pub sort_by : (A → A → Bool) → List A → List A
  sort_by le [] = []
  sort_by le (x ∷ xs) = place le x (sort_by le xs)

  -- ORDER BY f
  abbrev pub order_by : (A → ℕ) → List A → List A
  order_by f = sort_by (λ x y. leb (f x) (f y))

  -- The number of rows WHERE p.
  unfoldable pub count : (A → Bool) → List A → ℕ
  count p [] = 0
  count p (x ∷ xs) = (if p x then 1 else 0) + count p xs

module _ {ℓ} {A : Type ℓ} (p : A → Bool) (x : A) (xs : List A) where
  pub select_taken : p x ≡ true → select p (x ∷ xs) ≡ x ∷ select p xs
  unfolding select
  select_taken taken = ground (arith, taken)

  pub select_left : p x ≡ false → select p (x ∷ xs) ≡ select p xs
  unfolding select
  select_left left = ground (arith, left)

module _ {ℓ} {A : Type ℓ} (key : A → ℕ) where
  pub find-update :
      (p : A → Bool) (f : A → A)
      → ((x : A) → key (f x) ≡ key x)
      → (k : ℕ) (xs : List A)
      → find key k (update p f xs) ≡ map_option (λ x. if p x then f x else x) (find key k xs)
  unfolding find update
  find-update p f same k [] = refl
  find-update p f same k (x ∷ xs) = ground (arith, same x, find-update p f same k xs)

  pub find-insert :
      (x : A) (xs ys : List A) (k : ℕ)
      → insert key x xs ≡ some ys
      → (find key k ys ≡ (if key x == k then some x else find key k xs))
        × (find key (key x) xs ≡ none)
  unfolding insert find
  find-insert x xs ys k h = ground arith

  pub insert_ok :
      (x : A) (xs ys : List A)
      → insert key x xs ≡ some ys
      → (ys ≡ x ∷ xs) × (find key (key x) xs ≡ none)
  unfolding insert
  insert_ok x xs ys h = ground (arith, h)

  pub find-key : (k : ℕ) (x : A) (xs : List A) → find key k xs ≡ some x → key x ≡ k
  unfolding find
  find-key k x [] h = cc
  find-key k x (y ∷ xs) h = ground (arith, find-key k x xs)
