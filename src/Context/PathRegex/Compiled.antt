-- ===== src/Context/PathRegex/Compiled.antt =====
-- The regular expression of a path.
use microgateway.Common.{
  ℕ, ◌<◌, ◌≡◌, refl, true, Option, none, some, [], ◌∷◌, ◌++◌, length, if◌then◌else◌,
}
use microgateway.Context.PathRegex.{Chars, chars, is_multi, base_of, is_root, make_path_regex}
use microgateway.Context.PathRegex.Template.{
  Plain, PlainPieces, Pieces, template, pattern, numbered, avoids,
}
use microgateway.Context.PathRegex.Run.{loop-template, loop_open}

-- For a path that is a template, whose texts and names have no braces, and with one run of the
-- loop more than it has variables: the expression is that of the template behind the base path,
-- where only the last variable may be several segments, and for the path '/' that of the base path
-- alone. The variables are numbered in order.
pub make_path_regex-template :
    (fuel : ℕ) (base : Option Chars) (ps : Pieces) (tail : Chars)
    → length ps < fuel
    → PlainPieces ps
    → Plain tail
    → let path = template ps tail in
      make_path_regex fuel base path
      ≡ some (
        chars "^"
            ++ base_of base
            ++ (if is_root path then [] else pattern (is_multi path) ps tail)
            ++ chars "/?$",
        numbered 1 ps,
      )
unfolding make_path_regex
make_path_regex-template fuel base ps tail f h t =
    rw
      (
        make_path_regex,
        loop-template fuel (is_multi (template ps tail)) [] ps tail 1 [] f (refl, refl) h t,
      )
      refl

-- For a path with a '{' and without a '}' the loop does not end, however often it runs.
pub make_path_regex_open :
    (fuel : ℕ) (base : Option Chars) (before after : Chars)
    → Plain before
    → avoids b'}' after ≡ true
    → make_path_regex fuel base (before ++ "{" ∷ after) ≡ none
unfolding make_path_regex
make_path_regex_open fuel base before after h g =
    rw (make_path_regex, loop_open fuel (is_multi (before ++ "{" ∷ after)) before after 1 [] h g)
      refl
