-- ===== src/Security/Ldap/Names.antt =====
-- The distinguished name or filter of a user, from lib/security-check/basic-ldap.js. The text that
-- replaces the marker stands after `String.prototype.replace` has read its patterns `$$`, `$&`, `` $` ``
-- and `$'`; the expression for the marker has no group, so that `$1` stays.
use Prim.Native.Char.{code}
use Prim.Native.String.{[], ◌∷◌}
use microgateway.Common.{
  ℕ, zero, suc, String, Bool, true, false, ◌≡◌, refl, nat_eq, ◌+s◌, if◌then◌else◌,
}

-- `s.replace(/c/g, t)` for one character, and a `t` without patterns
pub replace_all : ℕ → String → String → String
replace_all char t [] = []
replace_all char t (c ∷ s) =
    let rest = replace_all char t s in if nat_eq (code c) char then t +s rest else c ∷ rest

unfoldable pub begins_with : String → String → Bool
begins_with [] s = true
begins_with (c ∷ p) [] = false
begins_with (c ∷ p) (d ∷ s) = if nat_eq (code c) (code d) then begins_with p s else false

pub drop_chars : ℕ → String → String
drop_chars zero s = s
drop_chars (suc n) [] = []
drop_chars (suc n) (c ∷ s) = drop_chars n s

abbrev pub marker : String
marker = "{{username}}"

-- what the replacement text `t` stands for between `before` and `after`
pub expanded : (before after t : String) → String
expanded before after [] = []
expanded before after (c ∷ []) = c ∷ []
expanded before after (c ∷ d ∷ t) =
    let two = expanded before after t in
    let one = expanded before after (d ∷ t) in
    if nat_eq (code c) 36
    then (if nat_eq (code d) 36
        then d ∷ two
        else if nat_eq (code d) 38
        then marker +s two
        else if nat_eq (code d) 96
        then before +s two
        else if nat_eq (code d) 39
        then after +s two
        else c ∷ one)
    else c ∷ one

-- `skip` characters of a marker that was replaced are still to come; `before` has been read.
pub fill_from : (skip : ℕ) → (before t s : String) → String
unfolding expanded begins_with drop_chars
fill_from skip before t [] = []
fill_from (suc skip) before t (c ∷ s) = fill_from skip (before +s (c ∷ [])) t s
fill_from zero before t (c ∷ s) =
    let filled = expanded before (drop_chars 11 s) t +s fill_from 11 (before +s (c ∷ [])) t s in
    let kept = c ∷ fill_from zero (before +s (c ∷ [])) t s in
    if begins_with marker (c ∷ s) then filled else kept

-- The characters * ( ) \ NUL and / of the user, in this order
pub escaped : String → String
unfolding replace_all
escaped user =
    let star = replace_all 42 "\\2a" user in
    let opened = replace_all 40 "\\28" star in
    let closed = replace_all 41 "\\29" opened in
    let slashed = replace_all 92 "\\5c" closed in
    let ended = replace_all 0 "\\00" slashed in replace_all 47 "\\2f" ended

unfoldable pub generate_dn : (user dn : String) → String
unfolding escaped fill_from
generate_dn user dn = fill_from 0 "" (escaped user) dn

in_place : generate_dn "ann" "uid={{username}},dc=org" ≡ "uid=ann,dc=org"
unfolding generate_dn escaped fill_from
in_place = refl

-- An asterisk is escaped, and then the backslash of that escape is escaped too.
escaped_twice : generate_dn "a*" "(uid={{username}})" ≡ "(uid=a\\5c2a)"
unfolding generate_dn escaped fill_from
escaped_twice = refl
