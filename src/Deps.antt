-- ===== src/Deps.antt =====
-- What the program takes from third-party packages, as one instance argument: the containers of
-- github.com/emirpasic/gods, the differences of github.com/sergi/go-diff, the unit file parser of
-- podman, and the dynamic values of a TOML file. Each operation comes with what the program relies
-- on, stated over the entries in the order of iteration. `Model` is an implementation.
mod Assoc
mod Lookup
pub mod Model
pub use Lookup.*
unfoldable pub use Assoc.{
  assoc_get, assoc_put, assoc_remove, tree_put, keys_of, values_of, insert_by, has_by,
}
use materia.Base.{
  ℕ, ◌<◌, String, ◌≡◌, ◌≢◌, ◌⊎◌, Bool, true, false, Option, none, some, List, [], ◌∷◌, Ordering,
  length, Exists,
}

-- gods/maps/linkedhashmap: entries in the order of first insertion
pub record LinkedHashMap : Type 1 where
  pub Map : Type 0 → Type 0
  pub new : {V : Type 0} → Map V
  pub get : {V : Type 0} → String → Map V → Option V
  pub put : {V : Type 0} → String → V → Map V → Map V
  pub remove : {V : Type 0} → String → Map V → Map V
  pub values : {V : Type 0} → Map V → List V
  pub size : {V : Type 0} → Map V → ℕ
  pub entries : {V : Type 0} → Map V → List (String × V)
  pub entries-new : {V : Type 0} → entries (new {V = V}) ≡ []
  pub entries-put :
      {V : Type 0} (k : String) (v : V) (m : Map V)
      → entries (put k v m) ≡ assoc_put k v (entries m)
  pub entries-remove :
      {V : Type 0} (k : String) (m : Map V) → entries (remove k m) ≡ assoc_remove k (entries m)
  pub get-entries : {V : Type 0} (k : String) (m : Map V) → get k m ≡ assoc_get k (entries m)
  pub values-entries : {V : Type 0} (m : Map V) → values m ≡ values_of (entries m)
  pub size-entries : {V : Type 0} (m : Map V) → size m ≡ length (entries m)

-- gods/maps/treemap with the string comparator: entries in the order of their keys
pub record TreeMap : Type 1 where
  pub Map : Type 0 → Type 0
  pub new : {V : Type 0} → Map V
  pub get : {V : Type 0} → String → Map V → Option V
  pub put : {V : Type 0} → String → V → Map V → Map V
  pub keys : {V : Type 0} → Map V → List String
  pub entries : {V : Type 0} → Map V → List (String × V)
  pub entries-new : {V : Type 0} → entries (new {V = V}) ≡ []
  pub entries-put :
      {V : Type 0} (k : String) (v : V) (m : Map V) → entries (put k v m) ≡ tree_put k v (entries m)
  pub get-entries : {V : Type 0} (k : String) (m : Map V) → get k m ≡ assoc_get k (entries m)
  pub keys-entries : {V : Type 0} (m : Map V) → keys m ≡ keys_of (entries m)

-- gods/sets/treeset with a comparator: an element that compares equal to one of the set replaces it
pub record TreeSet : Type 1 where
  pub Set : (A : Type 0) → (A → A → Ordering) → Type 0
  pub new : {A : Type 0} {cmp : A → A → Ordering} → Set A cmp
  pub add : {A : Type 0} {cmp : A → A → Ordering} → A → Set A cmp → Set A cmp
  pub contains : {A : Type 0} {cmp : A → A → Ordering} → A → Set A cmp → Bool
  pub values : {A : Type 0} {cmp : A → A → Ordering} → Set A cmp → List A
  pub values-new : {A : Type 0} {cmp : A → A → Ordering} → values (new {A = A} {cmp = cmp}) ≡ []
  pub values-add :
      {A : Type 0} {cmp : A → A → Ordering} (x : A) (s : Set A cmp)
      → values (add x s) ≡ insert_by cmp x (values s)
  pub contains-values :
      {A : Type 0} {cmp : A → A → Ordering} (x : A) (s : Set A cmp)
      → contains x s ≡ has_by cmp x (values s)

-- go-diff/diffmatchpatch; a nil slice is `none`
pub record DiffMatchPatch : Type 1 where
  pub Diff : Type 0
  pub is_equal : Diff → Bool
  pub diff_main : String → String → Option (List Diff)
  pub diff_text2 : Option (List Diff) → String
  pub text2-main : (a b : String) → diff_text2 (diff_main a b) ≡ b
  pub main_same :
      (a : String)
      → (diff_main a a ≡ none)
        ⊎ ((d : Diff) × (diff_main a a ≡ some (d ∷ [])) × (is_equal d ≡ true))
  pub main_differs :
      (a b : String)
      → a ≢ b
      → (d : Diff) × (ds : List Diff) × (diff_main a b ≡ some (d ∷ ds))
        × ((is_equal d ≡ false) ⊎ (0 < length ds))

-- podman/pkg/systemd/parser
pub record UnitParser : Type 1 where
  pub UnitFile : Type 0
  pub parse : String → Option UnitFile
  pub lookup : UnitFile → String → String → Option String
  pub has_group : UnitFile → String → Bool

pub record Deps : Type 1 where
  pub linked : LinkedHashMap
  pub tree : TreeMap
  pub set : TreeSet
  pub dmp : DiffMatchPatch
  pub unit : UnitParser
  -- `any`, as a TOML file holds it
  pub Value : Type 0
