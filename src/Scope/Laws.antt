-- ===== src/Scope/Laws.antt =====
-- crates/jcr-core/src/auth.rs, RepositoryScope and its text.
use jcr.Prelude.{
  ◌≡◌, refl, ◌↔◌, true, false, ◌||◌, List, [], ◌∷◌, ◌++◌, map, arith, any, is_empty, Bytes,
  bytes_eq, bytes_eq_refl, bytes_eq_iff, ok,
}
use jcr.Text.{contains, split, splitn, join}
use jcr.Text.Splitting.{split_once-append}
use jcr.Scope.{
  AccessAction, pull, push, delete, admin, ActionSet, RepositoryScope, action_eq, action_to_string,
  has, insert, from_iter, elements, new_scope, permits, resource_name, to_string, parse_actions,
  from_str,
}

has-insert : (a b : AccessAction) (s : ActionSet) → has (insert a s) b ≡ (action_eq a b || has s b)
unfolding has insert
has-insert pull b s = ground arith
has-insert push b s = ground arith
has-insert delete b s = ground arith
has-insert admin b s = ground arith

has-from_iter :
    (listed : List AccessAction) (b : AccessAction)
    → has (from_iter listed) b ≡ any (λ a. action_eq a b) listed
unfolding from_iter
has-from_iter [] pull = unfold has in refl
has-from_iter [] push = unfold has in refl
has-from_iter [] delete = unfold has in refl
has-from_iter [] admin = unfold has in refl
has-from_iter (a ∷ listed) b = rw (has-insert a b (from_iter listed), has-from_iter listed b)

pub any-or :
    (action : AccessAction) (l : List AccessAction)
    → any (λ a. action_eq a action || action_eq a admin) l
      ≡ (any (λ a. action_eq a action) l || any (λ a. action_eq a admin) l)
any-or action [] = refl
any-or action (a ∷ l) = ground (arith, any-or action l)

-- A scope made of listed actions permits an action on a repository exactly when the repository is
-- its own and the action, or `admin`, is listed.
pub permits-new_scope :
    (repository other : Bytes) (listed : List AccessAction) (action : AccessAction)
    → (permits (new_scope repository listed) other action ≡ true)
      ↔ ((repository ≡ other) × (any (λ a. action_eq a action || action_eq a admin) listed ≡ true))
unfolding permits new_scope
permits-new_scope repository other listed action =
    let e = any-or action listed in
    ground (
      arith,
      bytes_eq_iff repository other,
      has-from_iter listed action,
      has-from_iter listed admin,
      e,
    )

actions_text : ActionSet → Bytes
unfolding elements action_to_string
actions_text s = join b',' (map action_to_string (elements s))

parse_elements : (s : ActionSet) → parse_actions (split b',' (actions_text s)) ≡ ok (elements s)
unfolding actions_text parse_actions split join bytes_eq
parse_elements s = ground arith

from_iter-elements : (s : ActionSet) → from_iter (elements s) ≡ s
unfolding elements from_iter
from_iter-elements s = ground arith

colon_in_resource_name : contains b':' resource_name ≡ false
unfolding resource_name
colon_in_resource_name = refl

splitn-to_string :
    (s : RepositoryScope)
    → contains b':' s.repository ≡ false
    → splitn 3 b':' (to_string s) ≡ resource_name ∷ s.repository ∷ actions_text s.actions ∷ []
unfolding to_string actions_text splitn
splitn-to_string s h = rw (
  split_once-append b':' resource_name (s.repository ++ b':' ∷ actions_text s.actions)
      colon_in_resource_name,
  split_once-append b':' s.repository (actions_text s.actions) h,
  splitn,
)

-- Parsing the text of a scope gives the scope back, for a repository name that is not empty and
-- holds no colon.
pub from_str-to_string_scope :
    (s : RepositoryScope)
    → is_empty s.repository ≡ false
    → contains b':' s.repository ≡ false
    → from_str (to_string s) ≡ ok s
unfolding from_str new_scope
from_str-to_string_scope s n h = rw (
  splitn-to_string s h,
  bytes_eq_refl resource_name,
  n,
  parse_elements s.actions,
  from_iter-elements s.actions,
)

pub new_scope-elements : (s : RepositoryScope) → new_scope s.repository (elements s.actions) ≡ s
unfolding new_scope
new_scope-elements s = rw (from_iter-elements s.actions)
