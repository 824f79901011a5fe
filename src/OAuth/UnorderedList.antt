-- ===== src/OAuth/UnorderedList.antt =====
-- lib/oauth2/az-server/unorderedlist.js: a list of words whose order does not matter, such as the
-- response type of an authorization request.
pub mod Equality
use microgateway.Common.{
  String, Bool, true, false, not, List, nat_eq, length, all, any, if◌then◌else◌, contains, split,
  join,
}

pub record UnorderedList : Type 0 where
  pub items : List String

-- `new UnorderedList(items)` where `items` is a string
unfoldable pub of_string : String → UnorderedList
unfolding split
of_string items = record { items = split b' ' items }

unfoldable pub equal_to : UnorderedList → UnorderedList → Bool
unfolding contains
equal_to this other =
    if not (nat_eq (length this.items) (length other.items))
    then false
    else all (λ item. contains other.items item) this.items

-- the method `contains`
pub has : UnorderedList → String → Bool
has this val = contains this.items val

pub contains_any : UnorderedList → List String → Bool
contains_any this arr = any (contains this.items) arr

pub to_string : UnorderedList → String
to_string this = join " " this.items
