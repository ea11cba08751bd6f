-- ===== src/Rows.antt =====
-- What the SQL statements do to the rows of a table: WHERE, UPDATE, COUNT, DELETE and ORDER BY.
pub mod Laws
pub mod Keys
pub mod Numbers
use october_bus.Base.{
  ℕ, zero, suc, String, Bool, true, false, not, Option, none, some, List, [], ◌∷◌, if◌then◌else◌,
  ◌is◌,
}

module _ {ℓ} {A : Type ℓ} where
  -- SELECT ... WHERE p
  unfoldable pub select : (A → Bool) → List A → List A
  select p [] = []
  select p (x ∷ xs) = let rest = select p xs in if p x then x ∷ rest else rest

  -- The row that QueryRowContext reads: the first of the selected ones.
  unfoldable pub find : (A → Bool) → List A → Option A
  find p [] = none
  find p (x ∷ xs) = if p x then some x else find p xs

  unfoldable pub exists : (A → Bool) → List A → Bool
  exists p [] = false
  exists p (x ∷ xs) = if p x then true else exists p xs

  -- SELECT COUNT(*) ... WHERE p; also the affected rows of an UPDATE.
  unfoldable pub count : (A → Bool) → List A → ℕ
  count p [] = 0
  count p (x ∷ xs) = let rest = count p xs in if p x then suc rest else rest

  -- UPDATE ... SET f WHERE p
  unfoldable pub update : (A → Bool) → (A → A) → List A → List A
  update p f [] = []
  update p f (x ∷ xs) = (if p x then f x else x) ∷ update p f xs

  -- DELETE ... WHERE p
  unfoldable pub delete : (A → Bool) → List A → List A
  unfolding select
  delete p xs = select (λ x. not (p x)) xs

  -- ORDER BY: `before` is the order, ties stand in the order of insertion.
  unfoldable pub insert_by : (A → A → Bool) → A → List A → List A
  insert_by before x [] = x ∷ []
  insert_by before x (y ∷ ys) = if before x y then x ∷ y ∷ ys else y ∷ insert_by before x ys

  unfoldable pub sort_by : (A → A → Bool) → List A → List A
  unfolding insert_by
  sort_by before [] = []
  sort_by before (x ∷ xs) = insert_by before x (sort_by before xs)

-- Comparison with a nullable column: NULL equals nothing.
abbrev pub holds : Option String → String → Bool
holds none s = false
holds (some t) s = t is s

-- nullableString
abbrev pub nullable_string : String → Option String
nullable_string s = if s is "" then none else some s

-- NullString.String: the empty text for NULL.
abbrev pub text_or_empty : Option String → String
text_or_empty none = ""
text_or_empty (some s) = s

abbrev pub is_some {ℓ} : {A : Type ℓ} → Option A → Bool
is_some none = false
is_some (some a) = true

abbrev pub member : String → List String → Bool
member s [] = false
member s (t ∷ ts) = if t is s then true else member s ts

-- unique: the first of equal texts stays.
unfoldable pub unique_from : List String → List String → List String
unique_from seen [] = []
unique_from seen (v ∷ values) =
    let old = member v seen in
    let rest = unique_from (if old then seen else v ∷ seen) values in if old then rest else v ∷ rest

unfoldable pub unique : List String → List String
unfolding unique_from
unique values = unique_from [] values
