-- ===== src/Context/PathRegex/Run.antt =====
-- What the loop makes of a template, and where it does not end.
use Prim.Native.Char.{Char}
use microgateway.Common.{
  ℕ, zero, suc, ◌<◌, ◌≡◌, refl, ap, sym, ◌∙◌, arith, Bool, true, none, some, [], ◌∷◌, ◌++◌,
  append_assoc, append-nil, length,
}
use mathlib.Core.Path.{ap₂}
use microgateway.Context.PathRegex.{
  Chars, chars, cut, replace, variable_path, pattern_of, is_none, Groups, loop,
}
use microgateway.Context.PathRegex.Template.{
  Plain, Plain-append, PlainPieces, Pieces, template, pattern, is_last, numbered, avoids,
  cut-avoids, cut-append, avoids-append, replace_here, replace-append, after_prefix-append,
  variable_path-append, is_none-cut, pattern_of-Plain,
}

-- One run of the loop, where a variable is found.
loop_step :
    (fuel : ℕ) (multi : Bool) (path before after variable name : Chars) (last : Bool) (i : ℕ)
    (g : Groups)
    → cut b'{' path ≡ some (before, after)
    → variable_path before after ≡ (variable, name)
    → is_none (cut b'{' after) ≡ last
    → loop (suc fuel) multi path i g
      ≡ loop fuel multi
          (replace variable (pattern_of multi last) path)
          (suc i)
          (g ++ (name, i) ∷ [])
unfolding loop
loop_step fuel multi path before after variable name last i g h v l = rw (h, loop, v, l) refl

loop_end :
    (fuel : ℕ) (multi : Bool) (path : Chars) (i : ℕ) (g : Groups)
    → cut b'{' path ≡ none
    → loop (suc fuel) multi path i g ≡ some (path, g)
unfolding loop
loop_end fuel multi path i g h = rw (h, loop) refl

-- The loop replaces the variables of a template in order, and numbers them; with one run more than
-- there are variables it ends.
pub loop-template :
    (fuel : ℕ) (multi : Bool) (done : Chars) (ps : Pieces) (tail : Chars) (i : ℕ) (g : Groups)
    → length ps < fuel
    → Plain done
    → PlainPieces ps
    → Plain tail
    → loop fuel multi (done ++ template ps tail) i g
      ≡ some (done ++ pattern multi ps tail, g ++ numbered i ps)
loop-template zero multi done ps tail i g f d hs t = absurd (omega arith)
loop-template (suc fuel) multi done [] tail i g f d hs t =
    loop_end fuel multi (done ++ tail) i g
      (cut-avoids b'{' (done ++ tail) (avoids-append b'{' done tail d.0 t.0))
    ∙ rw (append-nil g) refl
loop-template (suc fuel) multi done ((lit, name) ∷ ps) tail i g f d ((l, n), hs) t =
    let rest = template ps tail in
    let by = pattern_of multi (is_last ps) in
    let before = Plain-append done lit d l in
    let whole : done ++ template ((lit, name) ∷ ps) tail
        ≡ (done ++ lit) ++ "{" ∷ (name ++ "}" ∷ rest) =
      sym (append_assoc done lit ("{" ∷ (name ++ "}" ∷ rest))) in
    let closed : (name ++ "}" ∷ []) ++ rest ≡ name ++ "}" ∷ rest =
      append_assoc name ("}" ∷ []) rest in
    let step =
      loop_step fuel multi ((done ++ lit) ++ "{" ∷ (name ++ "}" ∷ rest)) (done ++ lit)
        (name ++ "}" ∷ rest) ("{" ∷ (name ++ "}" ∷ [])) name (is_last ps) i g
        (cut-append b'{' (done ++ lit) "{" (name ++ "}" ∷ rest) before.0 refl)
        (variable_path-append (done ++ lit) name rest before n) (is_none-cut name ps tail n hs t) in
    let replaced : replace ("{" ∷ (name ++ "}" ∷ [])) by
          ((done ++ lit) ++ "{" ∷ (name ++ "}" ∷ rest))
        ≡ ((done ++ lit) ++ by) ++ rest =
      ap (λ u. replace ("{" ∷ (name ++ "}" ∷ [])) by ((done ++ lit) ++ "{" ∷ u)) (sym closed)
      ∙ replace-append (done ++ lit) "{" (name ++ "}" ∷ []) by rest before.0
      ∙ sym (append_assoc (done ++ lit) by rest) in
    let ih =
      loop-template fuel multi ((done ++ lit) ++ by) ps tail (suc i) (g ++ (name, i) ∷ [])
        (omega arith) (Plain-append (done ++ lit) by before (pattern_of-Plain multi (is_last ps)))
        hs t in
    let paths : ((done ++ lit) ++ by) ++ pattern multi ps tail
        ≡ done ++ (lit ++ (by ++ pattern multi ps tail)) =
      append_assoc (done ++ lit) by (pattern multi ps tail)
      ∙ append_assoc done lit (by ++ pattern multi ps tail) in
    let groups : (g ++ (name, i) ∷ []) ++ numbered (suc i) ps
        ≡ g ++ (name, i) ∷ numbered (suc i) ps =
      append_assoc g ((name, i) ∷ []) (numbered (suc i) ps) in
    ap (λ u. loop (suc fuel) multi u i g) whole
    ∙ step
    ∙ ap (λ u. loop fuel multi u (suc i) (g ++ (name, i) ∷ [])) replaced
    ∙ ih
    ∙ ap₂ (λ u v. some (u, v)) paths groups

replace_prefix : (part by t : Chars) (d : Char) → replace part by (part ++ d ∷ t) ≡ by ++ d ∷ t
replace_prefix [] by t d = replace_here [] by d t (d ∷ t) (after_prefix-append [] (d ∷ t))
replace_prefix (c ∷ part) by t d =
    replace_here (c ∷ part) by c (part ++ d ∷ t) (d ∷ t) (after_prefix-append (c ∷ part) (d ∷ t))

variable_path_open :
    (before after : Chars)
    → Plain before
    → avoids b'}' after ≡ true
    → variable_path before after ≡ (before, before ++ chars "{")
unfolding variable_path
variable_path_open before after h g =
    rw (cut-avoids b'}' before h.1, variable_path, cut-avoids b'}' after g) refl

pub loop_open :
    (fuel : ℕ) (multi : Bool) (before after : Chars) (i : ℕ) (g : Groups)
    → Plain before
    → avoids b'}' after ≡ true
    → loop fuel multi (before ++ "{" ∷ after) i g ≡ none
unfolding loop
loop_open zero multi before after i g h k = refl
loop_open (suc fuel) multi before after i g h k =
    let last = is_none (cut b'{' after) in
    let by = pattern_of multi last in
    loop_step fuel multi (before ++ "{" ∷ after) before after before (before ++ chars "{") last i g
      (cut-append b'{' before "{" after h.0 refl) (variable_path_open before after h k) refl
    ∙ ap (λ u. loop fuel multi u (suc i) (g ++ (before ++ chars "{", i) ∷ []))
        (replace_prefix before by after "{")
    ∙ loop_open fuel multi by after (suc i) (g ++ (before ++ chars "{", i) ∷ [])
        (pattern_of-Plain multi last) k
