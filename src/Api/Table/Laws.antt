-- ===== src/Api/Table/Laws.antt =====
-- What is found in a table after each statement.
use xianyu_manager.Api.Table.{delete, find, top, update}
use xianyu_manager.Dict.{is_some}
use xianyu_manager.Prelude.{
  ℕ, suc, Option, none, some, List, [], ◌∷◌, ◌++◌, if◌then◌else◌, ◌==ℕ◌, ◌≡◌, ◌≤◌, All, All-imp, In,
  here, there, sym, subst, refl, arith, Bool, false, true,
}

module _ {ℓ} {A : Type ℓ} (key : A → ℕ) where
  pub find-append :
      (n : ℕ) (xs ys : List A)
      → find key n (xs ++ ys) ≡ (if is_some (find key n xs) then find key n xs else find key n ys)
  unfolding find
  find-append n [] ys = refl
  find-append n (x ∷ xs) ys = ground (arith, find-append n xs ys)

  pub find-above : (n : ℕ) (xs : List A) → suc (top key xs) ≤ n → find key n xs ≡ none
  unfolding find top
  find-above n [] h = refl
  find-above n (x ∷ xs) h = ground (arith, find-above n xs)

  pub find-delete :
      (n m : ℕ) (xs : List A)
      → find key m (delete key n xs) ≡ (if n ==ℕ m then none else find key m xs)
  unfolding find delete
  find-delete n m [] = ground arith
  find-delete n m (x ∷ xs) = ground (arith, find-delete n m xs)

  abbrev pub changed : (A → A) → Option A → Option A
  changed f none = none
  changed f (some x) = some (f x)

  pub find-update :
      (n m : ℕ) (f : A → A) (xs : List A)
      → ((x : A) → key (f x) ≡ key x)
      → find key m (update key n f xs)
        ≡ (if n ==ℕ m then changed f (find key m xs) else find key m xs)
  unfolding find update
  find-update n m f [] h = ground arith
  find-update n m f (x ∷ xs) h = ground (arith, find-update n m f xs h, h x)

  -- What holds of every row after an update, from what held before it.
  pub All-update {κ μ} :
      (P : A → Type κ) (Q : A → Type μ) (n : ℕ) (f : A → A) (xs : List A)
      → ((x : A) → (key x ==ℕ n) ≡ true → P x → Q (f x))
      → ((x : A) → (key x ==ℕ n) ≡ false → P x → Q x)
      → All P xs
      → All Q (update key n f xs)
  unfolding update
  All-update P Q n f [] on off h = tt
  All-update P Q n f (x ∷ xs) on off h =
      (by_choice (key x ==ℕ n) refl, All-update P Q n f xs on off h.1)
    where
      by_choice : (b : Bool) → (key x ==ℕ n) ≡ b → Q (if b then f x else x)
      by_choice true e = on x e h.0
      by_choice false e = off x e h.0

  -- What holds of every row that is kept.
  pub All-delete {κ μ} :
      (P : A → Type κ) (Q : A → Type μ) (n : ℕ) (xs : List A)
      → ((x : A) → (key x ==ℕ n) ≡ false → P x → Q x)
      → All P xs
      → All Q (delete key n xs)
  unfolding delete
  All-delete P Q n [] k h = tt
  All-delete P Q n (x ∷ xs) k h = by_choice (key x ==ℕ n) refl (All-delete P Q n xs k h.1)
    where
      by_choice :
          (b : Bool)
          → (key x ==ℕ n) ≡ b
          → All Q (delete key n xs)
          → All Q (if b then delete key n xs else x ∷ delete key n xs)
      by_choice true e rest = rest
      by_choice false e rest = (k x e h.0, rest)

module _ {ℓ} {A : Type ℓ} where
  pub All-snoc {κ} : (P : A → Type κ) (xs : List A) (y : A) → All P xs → P y → All P (xs ++ y ∷ [])
  All-snoc P [] y h k = (k, tt)
  All-snoc P (x ∷ xs) y h k = (h.0, All-snoc P xs y h.1 k)

-- The keys of a table are distinct: each row is the one that its key finds.
abbrev pub IsKeyed {ℓ} : {A : Type ℓ} → (A → ℕ) → List A → Type ℓ
IsKeyed key xs = All (λ x. find key (key x) xs ≡ some x) xs

module _ {ℓ} {A : Type ℓ} (key : A → ℕ) where
  pub IsKeyed-append :
      (xs : List A) (y : A)
      → find key (key y) xs ≡ none
      → IsKeyed key xs
      → IsKeyed key (xs ++ y ∷ [])
  unfolding find
  IsKeyed-append xs y fresh h =
      All-snoc (λ x. find key (key x) (xs ++ y ∷ []) ≡ some x) xs y
        (All-imp (λ x. find key (key x) xs ≡ some x) (λ x. find key (key x) (xs ++ y ∷ []) ≡ some x)
          xs (λ x e. ground (arith, find-append key (key x) xs (y ∷ []))) h)
        (ground (arith, find-append key (key y) xs (y ∷ [])))

  pub IsKeyed-update :
      (n : ℕ) (f : A → A) (xs : List A)
      → ((x : A) → key (f x) ≡ key x)
      → IsKeyed key xs
      → IsKeyed key (update key n f xs)
  IsKeyed-update n f xs same h =
      All-update key (λ x. find key (key x) xs ≡ some x)
        (λ x. find key (key x) (update key n f xs) ≡ some x) n f xs
        (λ x on e. rw (same x) (ground (arith, find-update key n (key x) f xs same)))
        (λ x off e. ground (arith, find-update key n (key x) f xs same)) h

  pub IsKeyed-delete : (n : ℕ) (xs : List A) → IsKeyed key xs → IsKeyed key (delete key n xs)
  IsKeyed-delete n xs h =
      All-delete key (λ x. find key (key x) xs ≡ some x)
        (λ x. find key (key x) (delete key n xs) ≡ some x) n xs
        (λ x other e. ground (arith, find-delete key n (key x) xs)) h

module _ {ℓ} {A : Type ℓ} (key other : A → ℕ) where
  -- A deletion by another column.
  find-delete_by :
      (m n : ℕ) (x : A) (xs : List A)
      → find key m xs ≡ some x
      → (other x ==ℕ n) ≡ false
      → find key m (delete other n xs) ≡ some x
  unfolding find delete
  find-delete_by m n x [] h k = absurd (ground arith)
  find-delete_by m n x (y ∷ xs) h k = ground (arith, find-delete_by m n x xs)

  pub IsKeyed-delete_by : (n : ℕ) (xs : List A) → IsKeyed key xs → IsKeyed key (delete other n xs)
  IsKeyed-delete_by n xs h =
      All-delete other (λ x. find key (key x) xs ≡ some x)
        (λ x. find key (key x) (delete other n xs) ≡ some x) n xs
        (λ x kept e. find-delete_by (key x) n x xs e kept) h

module _ {ℓ} {A : Type ℓ} where
  pub All-both {κ μ} :
      (P : A → Type κ) (Q : A → Type μ) (xs : List A)
      → All P xs
      → All Q xs
      → All (λ x. P x × Q x) xs
  All-both P Q [] h k = tt
  All-both P Q (x ∷ xs) h k = ((h.0, k.0), All-both P Q xs h.1 k.1)

  pub some_inj : {a b : A} → some a ≡ some b → a ≡ b
  some_inj e = cc

  pub find-In :
      (key : A → ℕ) (n : ℕ) (x : A) (xs : List A)
      → find key n xs ≡ some x
      → In x xs × ((key x ==ℕ n) ≡ true)
  unfolding find
  find-In key n x [] h = absurd (ground arith)
  find-In key n x (y ∷ xs) h = by_choice (key y ==ℕ n) refl h (find-In key n x xs)
    where
      by_choice :
          (b : Bool)
          → (key y ==ℕ n) ≡ b
          → (if b then some y else find key n xs) ≡ some x
          → (find key n xs ≡ some x → In x xs × ((key x ==ℕ n) ≡ true))
          → In x (y ∷ xs) × ((key x ==ℕ n) ≡ true)
      by_choice true e g rest_of =
          (here (sym (some_inj g)), subst (λ z. (key z ==ℕ n) ≡ true) (some_inj g) e)
      by_choice false e g rest_of = let (i, k) = rest_of g in (there i, k)
