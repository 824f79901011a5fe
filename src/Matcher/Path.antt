-- ===== src/Matcher/Path.antt =====
-- The path that lib/api-matcher compares: `split('/')` and the loop that puts it together again.
use Prim.Native.Char.{Char, code}
use Prim.Native.String.{[], ◌∷◌}
use mathlib.Core.List.{List}
use text.Mathlib.TextLemmas.{nil-append, cons-append, append_assoc, append-nil}
use text.Mathlib.TextEquality.{Char-path}
use microgateway.Common.{
  String, ◌≡◌, ◌≢◌, refl, ap, ◌∙◌, inl, inr, true, Bool-cases, nat_eq, nat_eq→≡, ◌+s◌, split,
}
use microgateway.Common.Text.{split_from}
use microgateway.Matcher.{add_segments, path_of_segments, request_path}

slash_char : (c : Char) → nat_eq (code c) b'/' ≡ true → (c ∷ []) ≡ "/"
slash_char c h =
    let slash : Char = "/" in ap (λ d. d ∷ []) (Char-path c slash (nat_eq→≡ (code c) b'/' h))

-- The parts of a text, put together with a slash before each, are the text after a slash.
add_segments-split :
    (path cur s : String) → add_segments path (split_from b'/' cur s) ≡ path +s "/" +s cur +s s
unfolding add_segments split_from
add_segments-split path cur [] = rw append-nil refl
add_segments-split path cur (c ∷ s) = elim (Bool-cases (nat_eq (code c) b'/')) [
  | inl slash ↦ rw slash (
      add_segments-split (path +s "/" +s cur) "" s
      ∙ simp (nil-append, append_assoc, ← slash_char c slash, cons-append))
  | inr other ↦
      rw other
        (add_segments-split path (cur +s c ∷ []) s ∙ simp (nil-append, append_assoc, cons-append))
]

request_path-cons :
    (segments : List String)
    → segments ≢ List.[]
    → (s : String) → path_of_segments (List.◌∷◌ s segments) ≡ add_segments "" segments
unfolding path_of_segments
request_path-cons List.[] h s = absurd (h refl)
request_path-cons (List.◌∷◌ t ts) h s = refl

split_from-ne-nil : (cur s : String) → split_from b'/' cur s ≢ List.[]
unfolding split_from
split_from-ne-nil cur [] e = cc
split_from-ne-nil cur (c ∷ s) e = elim (Bool-cases (nat_eq (code c) b'/')) [
  | inl slash ↦ cc (e, slash)
  | inr other ↦ split_from-ne-nil (cur +s c ∷ []) s (rw other at e)
]

-- A pathname that begins with a slash, as every pathname of a request does, is compared unchanged:
-- splitting it and putting it together again loses nothing.
request_path-slash : (s : String) → request_path ("/" +s s) ≡ "/" +s s
unfolding request_path split split_from
request_path-slash s =
    rw (cons-append _ [] s, nil-append s)
      (request_path-cons (split_from b'/' "" s) (split_from-ne-nil "" s) ""
        ∙ add_segments-split "" "" s
        ∙ simp nil-append (rw (cons-append _ [] s, nil-append s)))
