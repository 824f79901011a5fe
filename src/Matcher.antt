-- ===== src/Matcher.antt =====
-- lib/api-matcher/index.js: the middleware that selects the API candidates of a request by path,
-- method and matching score. The regular expressions of the runtime are the parameter `re_test`
-- (`new RegExp(regex).test(path)`); `url.parse` is done by the caller, who gives the pathname.
pub mod Path
pub mod Lowest
pub mod Selection
pub mod Tests
use Prim.Native.Nat.{◌^◌}
use microgateway.Common.{
  ℕ, ◌-◌, String, Bool, true, false, not, ◌&&◌, ◌||◌, Option, none, some, List, [], ◌∷◌, ◌++◌, map,
  ltb, leb, ◌==◌, if◌then◌else◌, is_some, or_else, keep, find_first, loop, ◌+s◌, split, join,
}
use microgateway.Api.{MethodObj, PathObj, Entry}
use text.Mathlib.Text.{find?}

-- `path += '/' + segments[k]` for each segment but the first
add_segments : String → List String → String
add_segments path [] = path
add_segments path (s ∷ segments) = add_segments (path +s "/" +s s) segments

path_of_segments : List String → String
path_of_segments [] = ""
path_of_segments (s ∷ []) = "/"
path_of_segments (s ∷ segments) = add_segments "" segments

-- The path that is compared, from the pathname of the URL.
pub request_path : String → String
unfolding path_of_segments add_segments
request_path pathname = path_of_segments (split b'/' pathname)

pub record Current : Type 0 where
  pub method : String
  pub path : String

pub record Candidate : Type 0 where
  pub score : ℕ
  pub entry : Entry
  pub pathobj : PathObj
  pub mm : Option MethodObj
  pub allow_methods : String

-- the variables `matches` and `bestScore`
pub record Search : Type 0 where
  pub matches : List Candidate
  pub best_score : ℕ

-- Number.MAX_VALUE
pub max_value : ℕ
max_value = 2 ^ 1024 - 2 ^ 971

abbrev pub is_cors_enabled : Entry → Bool
is_cors_enabled entry = or_else entry.cors true

matched_method : Current → PathObj → Option MethodObj
matched_method current pathobj = find_first (λ m. current.method == m.method) pathobj.path_methods

-- `indexOf('OPTIONS') === -1` is `not (is_some (find? …))`.
allow_methods : Bool → PathObj → String
allow_methods false pathobj = ""
allow_methods true pathobj =
    let names = join "," (map (λ (m : MethodObj). m.method) pathobj.path_methods) in
    if not (names == "") && not (is_some (find? names "OPTIONS"))
    then names +s ",OPTIONS"
    else names

-- steps 1 to 2.1: whether the operation is reached by the path and the method
pub reached : (String → String → Bool) → Current → Entry → PathObj → Bool
unfolding matched_method
reached re_test current entry pathobj =
    re_test pathobj.path_regex current.path
    && (is_some (matched_method current pathobj)
        || (current.method == "OPTIONS" && is_cors_enabled entry))

pub candidate_of : Current → Entry → PathObj → Candidate
unfolding matched_method allow_methods
candidate_of current entry pathobj = record {
  score = pathobj.matching_score;
  entry = entry;
  pathobj = pathobj;
  mm = matched_method current pathobj;
  allow_methods = allow_methods (is_cors_enabled entry) pathobj;
}

-- step 3: the better score clears the list, the same score adds to it
pub consider : Search → Candidate → Search
consider s c =
    if leb c.score s.best_score
    then (if ltb c.score s.best_score
        then record { matches = c ∷ []; best_score = c.score }
        else record s { matches = s.matches ++ c ∷ [] })
    else s

visit_path : (String → String → Bool) → Current → Entry → Search → PathObj → Search
unfolding reached candidate_of consider
visit_path re_test current entry s pathobj =
    if reached re_test current entry pathobj
    then consider s (candidate_of current entry pathobj)
    else s

visit_entry : (String → String → Bool) → Current → Search → Entry → Search
unfolding visit_path
visit_entry re_test current s entry = loop (visit_path re_test current entry) s entry.api_paths

pub find_matches : (String → String → Bool) → Current → List Entry → List Candidate
unfolding visit_entry max_value
find_matches re_test current apis =
    (loop (visit_entry re_test current) (record { matches = []; best_score = max_value })
      (keep (λ e. e.test_app_cid_sec) apis)).matches

-- What the middleware leaves behind: `_apis` and `next()`, or the status 404 and an error.
pub data Outcome : Type 0 where
  narrowed : List Candidate → Outcome
  not_found : Outcome

settle : List Candidate → Outcome
settle [] = not_found
settle (c ∷ cs) = narrowed (c ∷ cs)

pub api_matcher : (String → String → Bool) → (method pathname : String) → List Entry → Outcome
unfolding request_path find_matches settle
api_matcher re_test method pathname apis =
    settle (find_matches re_test (record { method = method; path = request_path pathname }) apis)
