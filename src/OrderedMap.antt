-- ===== src/OrderedMap.antt =====
-- The map of github.com/secnot/orderedmap as the program uses it: keys in the order in which they
-- were set or moved, here without the values, which the program only points to. `names` are the
-- keys in order.
use gobalance.Common.{
  if◌then◌else◌, head?, filter, ==_refl, string_key, nat_key, ◌==◌, String, ◌≡◌, refl, ap, ◌∙◌,
  Bool, false, ◌||◌, not, Option, List, [], ◌∷◌, ◌++◌,
}

abbrev pub member : String → List String → Bool
member k [] = false
member k (j ∷ js) = j == k || member k js

abbrev pub without : String → List String → List String
without k js = filter (λ j. not (j == k)) js

-- the keys after one was moved to the end; one that is not there is not moved
abbrev pub moved : String → List String → List String
moved k [] = []
moved k (j ∷ js) = if j == k then js ++ j ∷ [] else j ∷ moved k js

pub record OrderedMap : Type 1 where
  pub Om : Type 0
  pub new_map : Om
  pub has : String → Om → Bool
  pub set_key : String → Om → Om
  pub delete_key : String → Om → Om
  pub get_first : Om → Option String
  pub move_last : String → Om → Om
  pub names : Om → List String
  pub names-new : names new_map ≡ []
  pub has_lem : (k : String) (m : Om) → has k m ≡ member k (names m)
  pub names-delete_key : (k : String) (m : Om) → names (delete_key k m) ≡ without k (names m)
  pub get_first_lem : (m : Om) → get_first m ≡ head? (names m)
  pub names-set_key :
      (k : String) (m : Om)
      → names (set_key k m) ≡ (if member k (names m) then names m else names m ++ k ∷ [])
  pub names-move_last : (k : String) (m : Om) → names (move_last k m) ≡ moved k (names m)

-- A map kept as the list of its keys: what is assumed can be met.
abbrev pub list_map : OrderedMap
list_map = record {
  Om = List String;
  new_map = [];
  has = λ k m. member k m;
  set_key = λ k m. if member k m then m else m ++ k ∷ [];
  delete_key = λ k m. without k m;
  get_first = λ m. head? m;
  move_last = λ k m. moved k m;
  names = λ m. m;
  names-new = refl;
  has_lem = λ k m. refl;
  names-delete_key = λ k m. refl;
  get_first_lem = λ m. refl;
  names-set_key = λ k m. refl;
  names-move_last = λ k m. refl;
}

pub moved_first : (k : String) (ks : List String) → moved k (k ∷ ks) ≡ ks ++ k ∷ []
moved_first k ks = rw (==_refl k) refl

pub names-move_first :
    (o : OrderedMap) (k : String) (ks : List String) (m : o.Om)
    → o.names m ≡ k ∷ ks
    → o.names (o.move_last k m) ≡ ks ++ k ∷ []
names-move_first o k ks m h = o.names-move_last k m ∙ ap (moved k) h ∙ moved_first k ks
