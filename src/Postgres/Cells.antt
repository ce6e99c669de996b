-- ===== src/Postgres/Cells.antt =====
-- Cells of a column, with NULLs, seen through a function.
use ematix_probe.Prelude.{
  ◌≡◌, ◌≢◌, ◌↔◌, refl, ap, false, Option, none, some, List, [], ◌∷◌, map, somes, is_none, All,
  Distinct,
}
use ematix_probe.Prelude.Counts.{some_injective}

-- The value of a cell has the property, if the cell is not NULL.
abbrev pub Asks {ℓ} : {A : Type ℓ} → (A → Type 0) → Option A → Type 0
Asks P none = Unit
Asks P (some v) = P v

-- What follows of each value by itself follows of all cells.
pub All-Asks :
    {A : Type 0} (P Q : A → Type 0) (cs : List (Option A))
    → ((v : A) → P v → Q v)
    → All (Asks P) cs
    → All (Asks Q) cs
All-Asks P Q [] h a = tt
All-Asks P Q (none ∷ cs) h (_, a) = (tt, All-Asks P Q cs h a)
All-Asks P Q (some v ∷ cs) h (p, a) = (h v p, All-Asks P Q cs h a)

pub All-Asks_pure :
    {A : Type 0} (P : A → Type 0) (cs : List (Option A)) → ((v : A) → P v) → All (Asks P) cs
All-Asks_pure P [] h = tt
All-Asks_pure P (none ∷ cs) h = (tt, All-Asks_pure P cs h)
All-Asks_pure P (some v ∷ cs) h = (h v, All-Asks_pure P cs h)

module _ {A B : Type 0} where
  -- the value of a cell, seen through a function
  abbrev pub over : (A → B) → Option A → Option B
  over g none = none
  over g (some a) = some (g a)

  -- Where each value asks the same by itself and through the function, so do all cells.
  pub asked-observed :
      (P : A → Type 0) (Q : B → Type 0) (g : A → B) (cs : List (Option A))
      → All (Asks λ v. P v ↔ Q (g v)) cs
      → All Q (somes (map (over g) cs)) ↔ All (Asks P) cs
  asked-observed P Q g [] h = ((λ a. tt), λ a. tt)
  asked-observed P Q g (none ∷ cs) (_, h) =
      let (to, from) = asked-observed P Q g cs h in ((λ a. (tt, to a)), λ a. from a.1)
  asked-observed P Q g (some v ∷ cs) ((f, k), h) =
      let (to, from) = asked-observed P Q g cs h in ((λ a. (k a.0, to a.1)), λ a. (f a.0, from a.1))

  module _ (f : A → B) (injective : (a b : A) → f a ≡ f b → a ≡ b) where
    All-ne_map : (x : A) (ys : List A) → All (λ y. x ≢ y) ys ↔ All (λ y. f x ≢ y) (map f ys)
    All-ne_map x [] = ((λ a. tt), λ a. tt)
    All-ne_map x (y ∷ ys) =
        let (to, from) = All-ne_map x ys in
        ((λ a. ((λ e. a.0 (injective x y e)), to a.1)), λ a. ((λ e. a.0 (ap f e)), from a.1))

    -- A function that keeps values apart keeps lists of them distinct.
    pub Distinct-map_iff : (xs : List A) → Distinct xs ↔ Distinct (map f xs)
    Distinct-map_iff [] = ((λ a. tt), λ a. tt)
    Distinct-map_iff (x ∷ xs) =
        let (to, from) = Distinct-map_iff xs in
        let (to_others, from_others) = All-ne_map x xs in
        ((λ a. (to_others a.0, to a.1)), λ a. (from_others a.0, from a.1))

  pub map_injective :
      (f : A → B) (injective : (a b : A) → f a ≡ f b → a ≡ b) (xs ys : List A)
      → map f xs ≡ map f ys
      → xs ≡ ys
  map_injective f injective [] [] e = refl
  map_injective f injective [] (y ∷ ys) e = cc
  map_injective f injective (x ∷ xs) [] e = cc
  map_injective f injective (x ∷ xs) (y ∷ ys) e =
      let first : x ≡ y = injective x y (cc) in
      let rest : xs ≡ ys = map_injective f injective xs ys (cc) in cc

-- Without a null, the cells through a function are its values.
somes-over :
    {A B : Type 0} (f : A → B) (cs : List (Option A))
    → All (λ c. is_none c ≡ false) (map (over f) cs)
    → map (over f) cs ≡ map (λ a. some (f a)) (somes cs)
somes-over f [] h = refl
somes-over f (none ∷ cs) (h, hs) = cc
somes-over f (some a ∷ cs) (h, hs) = ap (λ t. some (f a) ∷ t) (somes-over f cs hs)

-- A column without a null is distinct, seen through a function that keeps values apart, exactly
-- when its values are.
pub Distinct-over_iff :
    {A B : Type 0} (f : A → B) (cs : List (Option A))
    → ((a b : A) → f a ≡ f b → a ≡ b)
    → All (λ c. is_none c ≡ false) (map (over f) cs)
    → Distinct (somes cs) ↔ Distinct (map (over f) cs)
Distinct-over_iff f cs apart no_null = rw (somes-over f cs no_null) (
    Distinct-map_iff (λ a. some (f a)) (λ a b e. apart a b (some_injective (f a) (f b) e))
      (somes cs))
