-- ===== src/Scope.antt =====
-- crates/jcr-core/src/auth.rs: repository actions and the scopes that tokens carry.
pub mod Laws
use jcr.Prelude.{
  ℕ, zero, suc, ◌+◌, ◌-◌, ◌*◌, ◌/◌, ◌%◌, ◌^◌, ◌≤◌, ◌<◌, String, ◌≡◌, refl, sym, ap, ◌∙◌, ◌≢◌, ◌↔◌,
  ◌⊎◌, inl, inr, Bool, true, false, not, ◌&&◌, ◌||◌, Option, none, some, List, [], ◌∷◌, ◌++◌, map,
  reverse, arith, ltb, leb, ◌==◌, ==_iff, if◌then◌else◌, Bool-cases, Option-cases, &&-eq-true,
  ||-eq-false, length, all, any, is_empty, length-append, all-append, any-append, Bytes, codes,
  bytes_eq, bytes_eq_refl, eq_of_bytes_eq, bytes_eq_iff, Result, ok, err, ok_or, is_ok, to_option,
  ◌>>=◌, ◌>>◌, >>=-eq-ok, map_err,
}
use jcr.Text.{split, splitn, join}

pub data AccessAction : Type 0 where
  pull push delete admin : AccessAction

pub data ScopeError : Type 0 where
  invalid_format : ScopeError
  unsupported_resource : ScopeError
  unknown_action : Bytes → ScopeError

unfoldable pub action_to_string : AccessAction → Bytes
action_to_string pull = codes "pull"
action_to_string push = codes "push"
action_to_string delete = codes "delete"
action_to_string admin = codes "admin"

unfoldable pub action_from_str : Bytes → Result ScopeError AccessAction
action_from_str value =
    if bytes_eq value (codes "pull")
    then ok pull
    else if bytes_eq value (codes "push")
    then ok push
    else if bytes_eq value (codes "delete")
    then ok delete
    else if bytes_eq value (codes "admin")
    then ok admin
    else err (unknown_action value)

-- derived `PartialEq`
abbrev pub action_eq : AccessAction → AccessAction → Bool
action_eq pull pull = true
action_eq push push = true
action_eq delete delete = true
action_eq admin admin = true
action_eq _ _ = false

-- `BTreeSet<AccessAction>`, by which of the four actions it holds.
pub record ActionSet : Type 0 where
  pub has_pull : Bool
  pub has_push : Bool
  pub has_delete : Bool
  pub has_admin : Bool

abbrev pub no_actions : ActionSet
no_actions = record { has_pull = false; has_push = false; has_delete = false; has_admin = false }

unfoldable pub insert : AccessAction → ActionSet → ActionSet
insert pull s = record s { has_pull = true }
insert push s = record s { has_push = true }
insert delete s = record s { has_delete = true }
insert admin s = record s { has_admin = true }

unfoldable pub has : ActionSet → AccessAction → Bool
has s pull = s.has_pull
has s push = s.has_push
has s delete = s.has_delete
has s admin = s.has_admin

-- `collect` into the set
unfoldable pub from_iter : List AccessAction → ActionSet
unfolding insert
from_iter [] = no_actions
from_iter (a ∷ rest) = insert a (from_iter rest)

abbrev keep_if {ℓ} : {A : Type ℓ} → Bool → A → List A → List A
keep_if true a rest = a ∷ rest
keep_if false a rest = rest

-- the iteration, in the order that is derived
unfoldable pub elements : ActionSet → List AccessAction
elements s =
    keep_if s.has_pull pull
      (keep_if s.has_push push (keep_if s.has_delete delete (keep_if s.has_admin admin [])))

pub record RepositoryScope : Type 0 where
  pub repository : Bytes
  pub actions : ActionSet

-- `RepositoryScope::new`
unfoldable pub new_scope : Bytes → List AccessAction → RepositoryScope
unfolding from_iter
new_scope repository actions = record { repository = repository; actions = from_iter actions }

unfoldable pub permits : RepositoryScope → Bytes → AccessAction → Bool
unfolding has
permits scope repository action =
    bytes_eq scope.repository repository && (has scope.actions action || has scope.actions admin)

unfoldable pub resource_name : Bytes
resource_name = codes "repository"

-- `Display`
unfoldable pub to_string : RepositoryScope → Bytes
unfolding resource_name elements action_to_string
to_string scope =
    resource_name
    ++ b':' ∷ (scope.repository ++ b':' ∷ join b',' (map action_to_string (elements scope.actions)))

-- The empty pieces are dropped, and the first unknown action ends the loop.
unfoldable pub parse_actions : List Bytes → Result ScopeError (List AccessAction)
unfolding action_from_str
parse_actions [] = ok []
parse_actions (piece ∷ pieces) =
    let rest = parse_actions pieces in
    if is_empty piece
    then rest
    else do action ← action_from_str piece; actions ← rest; ok (action ∷ actions)

-- behind the first piece
unfoldable pub parse_pieces : List Bytes → Result ScopeError RepositoryScope
unfolding parse_actions new_scope
parse_pieces [] = err invalid_format
parse_pieces (repository ∷ []) = err invalid_format
parse_pieces (repository ∷ actions ∷ rest) =
    if is_empty repository
    then err invalid_format
    else do actions ← parse_actions (split b',' actions); ok (new_scope repository actions)

unfoldable pub check_resource : List Bytes → Result ScopeError RepositoryScope
unfolding parse_pieces resource_name
check_resource [] = err unsupported_resource
check_resource (resource ∷ pieces) =
    if not (bytes_eq resource resource_name) then err unsupported_resource else parse_pieces pieces

-- `FromStr`
unfoldable pub from_str : Bytes → Result ScopeError RepositoryScope
unfolding check_resource
from_str value = check_resource (splitn 3 b':' value)
