-- ===== src/Platform/Sets.antt =====
-- k8s.io/apimachinery/pkg/util/sets: `sets.Set[string]`.
use knative_extensions_net_i.Base.{ℕ, ◌≡◌, Bool, false, ◌&&◌, ◌||◌, List, length}
use knative_extensions_net_i.Base.Sort.{IsSorted}
use knative_extensions_net_i.GoString.{GoString, elem}
use knative_extensions_net_i.GoString.Order.{str_lt}

-- The keys of the Go map that a set is, in the order in which `range` gives them.
pub record StringSet : Type 0 where
  pub keys : List GoString

pub record SetLib : Type 0 where
  -- `sets.New[string]()`
  pub empty : StringSet
  -- `s.Insert(xs...)`, the set after it
  pub insert : StringSet → List GoString → StringSet
  pub union : StringSet → StringSet → StringSet
  pub intersection : StringSet → StringSet → StringSet
  pub has : StringSet → GoString → Bool
  -- `s.Len()`
  pub size : StringSet → ℕ
  -- `sets.List(s)`
  pub to_list : StringSet → List GoString
  pub has-empty : (x : GoString) → has empty x ≡ false
  pub has-insert :
      (s : StringSet) (xs : List GoString) (x : GoString)
      → has (insert s xs) x ≡ (has s x || elem x xs)
  pub has-union : (s t : StringSet) (x : GoString) → has (union s t) x ≡ (has s x || has t x)
  pub has-intersection :
      (s t : StringSet) (x : GoString) → has (intersection s t) x ≡ (has s x && has t x)
  pub elem-keys : (s : StringSet) (x : GoString) → elem x s.keys ≡ has s x
  pub elem-to_list : (s : StringSet) (x : GoString) → elem x (to_list s) ≡ has s x
  pub to_list-IsSorted : (s : StringSet) → IsSorted str_lt (to_list s)
  pub size_lem : (s : StringSet) → size s ≡ length (to_list s)
